-- ===== src/Ui/History.antt =====
-- The notification history of apps/psp/src/ui.c and its abstract view, a list of notifications.
use psp_dev_link.Base.{
  ℕ, zero, suc, ◌+◌, ◌≤◌, ◌<◌, ◌≡◌, ◌≢◌, refl, List, [], ◌∷◌, Option, some, load, length, take,
  Bool, true, false, ltb, ◌==◌, if◌then◌else◌, Bool-cases, if_intro, inl, inr, arith, ap, sym, ◌∙◌,
  ltb→lt, ◌-◌,
}
use mathlib.Core.Path.{subst}
use mathlib.Core.Bool.{false≢true}
use psp_dev_link.Payload.Chars.{c_text, strcmp_eq, IsTerminated}
use psp_dev_link.Payload.Chars.Laws.{Compares, strcmp_eq-Compares}
use psp_dev_link.Payload.Notification.{NotificationPayload, HasTexts}
use psp_dev_link.Ui.{
  Ui, IsUi, AllTexts, shown, trigger_popup, same_notification, is_repeat, record_notification,
  ui_add_notification,
}

-- Five entries, one by one.
record Five (h : List NotificationPayload) : Type 0 where
  a : NotificationPayload
  b : NotificationPayload
  c : NotificationPayload
  d : NotificationPayload
  e : NotificationPayload
  is : h ≡ a ∷ b ∷ c ∷ d ∷ e ∷ []

Five-entries : (h : List NotificationPayload) → length h ≡ 5 → Five h
Five-entries (a ∷ b ∷ c ∷ d ∷ e ∷ []) l = record { a = a; b = b; c = c; d = d; e = e; is = refl }
Five-entries (a ∷ b ∷ c ∷ d ∷ e ∷ f ∷ h) l = absurd (omega arith)
Five-entries _ l = absurd (omega arith)

-- The same three C strings.
pub record SameTexts (m n : NotificationPayload) : Type 0 where
  pub same_name : c_text m.app_name ≡ c_text n.app_name
  pub same_summary : c_text m.summary ≡ c_text n.summary
  pub same_body : c_text m.body ≡ c_text n.body

-- What the three comparisons find.
record ComparesTexts (m n : NotificationPayload) (result : Option Bool) : Type 0 where
  equal : Bool
  returns : result ≡ some equal
  sound : equal ≡ true → SameTexts m n
  complete : SameTexts m n → equal ≡ true

same_notification-Compares :
    (m n : NotificationPayload)
    → HasTexts m
    → HasTexts n
    → ComparesTexts m n (same_notification m n)
unfolding same_notification
same_notification-Compares m n hm hn = elim (Bool-cases names.equal) [
  | inr differ ↦ record {
    equal = false;
    returns = rw (names.returns, differ);
    sound = λ e. cc;
    complete = λ s. cc (names.complete s.same_name);
  }
  | inl agree ↦ elim (Bool-cases summaries.equal) [
    | inr differ ↦ record {
      equal = false;
      returns = rw (names.returns, agree, summaries.returns, differ);
      sound = λ e. cc;
      complete = λ s. cc (summaries.complete s.same_summary);
    }
    | inl agree' ↦ record {
      equal = bodies.equal;
      returns = rw (names.returns, agree, summaries.returns, agree', bodies.returns);
      sound = λ e. record {
        same_name = names.sound agree;
        same_summary = summaries.sound agree';
        same_body = bodies.sound e;
      };
      complete = λ s. bodies.complete s.same_body;
    }
  ]
]
  where
    names : Compares m.app_name n.app_name (strcmp_eq m.app_name n.app_name)
    names = strcmp_eq-Compares m.app_name n.app_name hm.name_ends hn.name_ends

    summaries : Compares m.summary n.summary (strcmp_eq m.summary n.summary)
    summaries = strcmp_eq-Compares m.summary n.summary hm.summary_ends hn.summary_ends

    bodies : Compares m.body n.body (strcmp_eq m.body n.body)
    bodies = strcmp_eq-Compares m.body n.body hm.body_ends hn.body_ends

first_four :
    (l : List NotificationPayload) (h : Five l) → AllTexts l → AllTexts (h.a ∷ h.b ∷ h.c ∷ h.d ∷ [])
first_four l h t = let s = subst AllTexts h.is t in (s.0, (s.1.0, (s.1.1.0, (s.1.1.1.0, tt))))

first_texts : (l : List NotificationPayload) (h : Five l) → AllTexts l → HasTexts h.a
first_texts l h t = (subst AllTexts h.is t).0

-- A history that is not empty begins with the first entry of the array.
shown_first :
    (k : ℕ) (l : List NotificationPayload) (h : Five l)
    → 0 < k
    → take k l ≡ h.a ∷ take (k - 1) (h.b ∷ h.c ∷ h.d ∷ h.e ∷ [])
shown_first zero l h p = absurd (omega arith)
shown_first (suc k) l h p =
    ap (take (suc k)) h.is ∙ ap (λ (j : ℕ). h.a ∷ take j (h.b ∷ h.c ∷ h.d ∷ h.e ∷ [])) (omega arith)

take_after_shift :
    (k : ℕ) (n a b c d e : NotificationPayload)
    → k ≤ 5
    → take (if ltb k 5 then k + 1 else k) (n ∷ a ∷ b ∷ c ∷ d ∷ [])
      ≡ take 5 (n ∷ take k (a ∷ b ∷ c ∷ d ∷ e ∷ []))
take_after_shift zero n a b c d e h = refl
take_after_shift (suc zero) n a b c d e h = refl
take_after_shift (suc (suc zero)) n a b c d e h = refl
take_after_shift (suc (suc (suc zero))) n a b c d e h = refl
take_after_shift (suc (suc (suc (suc zero)))) n a b c d e h = refl
take_after_shift (suc (suc (suc (suc (suc zero))))) n a b c d e h = refl
take_after_shift (suc (suc (suc (suc (suc (suc k)))))) n a b c d e h = absurd (omega arith)

-- What entering a new notification leaves.
record Records (n : NotificationPayload) (u : Ui) (result : Option Ui) : Type 0 where
  after : Ui
  returns : result ≡ some after
  keeps : IsUi after
  latest_first : shown after ≡ take 5 (n ∷ shown u)
  popup : after ≡ trigger_popup n after

record_notification-Records :
    (n : NotificationPayload) (u : Ui) → IsUi u → HasTexts n → Records n u (record_notification n u)
unfolding record_notification
record_notification-Records n u ok texts =
    let h = Five-entries u.notif_history ok.five in
    record {
      after = trigger_popup n (record u {
        notif_history = n ∷ h.a ∷ h.b ∷ h.c ∷ h.d ∷ [];
        notif_history_count =
            if ltb u.notif_history_count 5
            then u.notif_history_count + 1
            else u.notif_history_count;
      });
      returns = rw (h.is);
      keeps = record {
        five = refl;
        count_fits = count;
        texts = (texts, first_four u.notif_history h ok.texts);
        popup_texts = texts;
        ticks_fit = omega arith;
        buffers = ok.buffers;
      };
      latest_first =
          take_after_shift u.notif_history_count n h.a h.b h.c h.d h.e ok.count_fits
          ∙ ap (λ l. take 5 (n ∷ take u.notif_history_count l)) (sym h.is);
      popup = refl;
    }
  where
    count :
        (if ltb u.notif_history_count 5 then u.notif_history_count + 1 else u.notif_history_count)
        ≤ 5
    count = let fits : u.notif_history_count ≤ 5 = ok.count_fits in ground arith

-- Whether the call finds its notification at the head of the history.
record Finds (n : NotificationPayload) (u : Ui) (result : Option Bool) : Type 0 where
  again : Bool
  returns : result ≡ some again
  sound :
      again ≡ true
      → (m : NotificationPayload) × (ms : List NotificationPayload) × (shown u ≡ m ∷ ms)
        × SameTexts m n
  complete :
      (m : NotificationPayload) (ms : List NotificationPayload)
      → shown u ≡ m ∷ ms
      → SameTexts m n
      → again ≡ true

head-injective :
    {x y : NotificationPayload} {xs ys : List NotificationPayload} → x ∷ xs ≡ y ∷ ys → x ≡ y
head-injective e = cc

nil≢cons : {y : NotificationPayload} {ys : List NotificationPayload} → [] ≡ y ∷ ys → ⊥
nil≢cons e = cc

is_repeat-Finds :
    (n : NotificationPayload) (u : Ui) → IsUi u → HasTexts n → Finds n u (is_repeat n u)
unfolding is_repeat
is_repeat-Finds n u ok texts =
    let h = Five-entries u.notif_history ok.five in
    elim (Bool-cases (ltb 0 u.notif_history_count)) [
      | inr none_yet ↦
          let zero_count : u.notif_history_count ≡ 0 = ground arith in
          record {
            again = false;
            returns = rw none_yet;
            sound = λ e. cc;
            complete = λ m ms e s. absurd (nil≢cons (rw zero_count at e));
          }
      | inl some_yet ↦
          let found =
            same_notification-Compares h.a n (first_texts u.notif_history h ok.texts) texts in
          record {
            again = found.equal;
            returns = rw (some_yet, h.is, found.returns);
            sound = λ e. (
              h.a,
              take (u.notif_history_count - 1) (h.b ∷ h.c ∷ h.d ∷ h.e ∷ []),
              shown_first u.notif_history_count u.notif_history h (ltb→lt _ _ some_yet),
              found.sound e,
            );
            complete = λ m ms e s. found.complete (
                subst (λ x. SameTexts x n)
                  (head-injective (
                    sym e
                    ∙ shown_first u.notif_history_count u.notif_history h (ltb→lt _ _ some_yet)))
                  s);
          }
    ]

-- What one call of `ui_add_notification` with `n` does.
pub data Outcome (n : NotificationPayload) (u v : Ui) : Type 0 where
  -- A notification with no application name is dropped.
  unnamed : c_text n.app_name ≡ [] → v ≡ u → Outcome n u v
  -- A repeat of the latest entry is not entered again, but its popup is up.
  repeated :
      (m : NotificationPayload) (ms : List NotificationPayload)
      → shown u ≡ m ∷ ms
      → SameTexts m n
      → shown v ≡ shown u
      → v.popup_active ≡ true
      → Outcome n u v
  -- Any other is put in front of the latest four, with a popup of 500 ticks.
  entered :
      c_text n.app_name ≢ []
      → ((m : NotificationPayload) (ms : List NotificationPayload)
          → shown u ≡ m ∷ ms
          → ¬ SameTexts m n)
      → shown v ≡ take 5 (n ∷ shown u)
      → v ≡ trigger_popup n v
      → Outcome n u v

pub record Adds (n : NotificationPayload) (u : Ui) (result : Option Ui) : Type 0 where
  pub after : Ui
  pub returns : result ≡ some after
  pub keeps : IsUi after
  pub outcome : Outcome n u after

trigger_popup-IsUi :
    (n : NotificationPayload) (u : Ui) → IsUi u → HasTexts n → IsUi (trigger_popup n u)
trigger_popup-IsUi n u ok texts = record {
  five = ok.five;
  count_fits = ok.count_fits;
  texts = ok.texts;
  popup_texts = texts;
  ticks_fit = omega arith;
  buffers = ok.buffers;
}

again_popup :
    (n : NotificationPayload) (u : Ui)
    → IsUi u
    → HasTexts n
    → IsUi (if u.popup_active then u else trigger_popup n u)
again_popup n u ok texts =
    if_intro IsUi u.popup_active u (trigger_popup n u) ok (trigger_popup-IsUi n u ok texts)

shown_again :
    (n : NotificationPayload) (u : Ui)
    → shown (if u.popup_active then u else trigger_popup n u) ≡ shown u
shown_again n u = if_intro (λ v. shown v ≡ shown u) u.popup_active u (trigger_popup n u) refl refl

active_again :
    (n : NotificationPayload) (u : Ui)
    → (if u.popup_active then u else trigger_popup n u).popup_active ≡ true
active_again n u = ground arith

first_char :
    (s : List ℕ)
    → IsTerminated s
    → (c : ℕ) × (load s 0 ≡ some c)
      × ((c == 0) ≡ true → c_text s ≡ [])
      × ((c == 0) ≡ false → c_text s ≢ [])
first_char [] h = absurd h
first_char (c ∷ s) h = (c, refl, λ e. rw e, λ e. rw e (λ p. cc))

-- On a valid state, a notification whose texts end is handled without leaving any array, the state
-- stays valid, and the history that is shown is the abstract one: unnamed notifications are
-- dropped, a repeat of the latest only raises the popup, and any other comes first with the latest
-- four behind it.
pub ui_add_notification-Adds :
    (n : NotificationPayload) (u : Ui)
    → IsUi u
    → HasTexts n
    → Adds n u (ui_add_notification (some n) u)
unfolding ui_add_notification
ui_add_notification-Adds n u ok texts =
    let (c, at0, empty, full) = first_char n.app_name texts.name_ends in
    let found = is_repeat-Finds n u ok texts in
    let made = record_notification-Records n u ok texts in
    elim (Bool-cases (c == 0)) [
      | inl nameless ↦ record {
        after = u;
        returns = rw (at0, nameless);
        keeps = ok;
        outcome = unnamed (empty nameless) refl;
      }
      | inr named ↦ elim (Bool-cases found.again) [
        | inl again ↦
            let (m, ms, head, same) = found.sound again in
            record {
              after = if u.popup_active then u else trigger_popup n u;
              returns = rw (at0, named, found.returns, again);
              keeps = again_popup n u ok texts;
              outcome = repeated m ms head same (shown_again n u) (active_again n u);
            }
        | inr fresh ↦ record {
          after = made.after;
          returns = rw (at0, named, found.returns, fresh, made.returns);
          keeps = made.keeps;
          outcome =
              entered (full named)
                (λ m ms head same. false≢true (sym fresh ∙ found.complete m ms head same))
                made.latest_first made.popup;
        }
      ]
    ]
