-- ===== src/Host/Notifications/Laws.antt =====
-- What the listener of apps/desktop/src/notification_service.cpp makes of a call of Notify.
use psp_dev_link.Base.{
  ℕ, zero, suc, ◌+◌, ◌-◌, ◌≡◌, refl, ◌∙◌, ap, List, [], ◌∷◌, ◌++◌, none, some, take, drop, length,
  replicate, Bool, true, false, if◌then◌else◌, if_intro, pos, codes, arith, length-replicate,
  lt→ltb, ltb-eq-false,
}
use psp_dev_link.Host.Text.{find, rfind_char, starts_with, is_empty}
use psp_dev_link.Host.Notifications.{
  push_mock_notification, Listener, contains, take_value, hear_value, hear_argument, hear_line,
}

-- A string argument as dbus-monitor prints it: spaces, the type, the value in quotation marks and
-- the end of the line.
abbrev pub string_line : ℕ → List ℕ → List ℕ
string_line k v = replicate k b' ' ++ (codes "string \"" ++ (v ++ (b'"' ∷ b'\n' ∷ [])))

abbrev pub hear_lines : List (List ℕ) → Listener → Listener
hear_lines [] s = s
hear_lines (l ∷ ls) s = hear_lines ls (hear_line l s)

find_string :
    (k : ℕ) (s : List ℕ)
    → find (codes "string \"") (replicate k b' ' ++ (codes "string \"" ++ s)) ≡ some k
unfolding find starts_with
find_string zero s = refl
find_string (suc k) s = rw (find_string k s)

rfind_char-append :
    (c : ℕ) (s t : List ℕ) (n : ℕ)
    → rfind_char c t ≡ some n
    → rfind_char c (s ++ t) ≡ some (length s + n)
unfolding rfind_char
rfind_char-append c [] t n h = h ∙ ap some (omega arith)
rfind_char-append c (x ∷ s) t n h = rw (rfind_char-append c s t n h) (ap some (omega arith))

take-append : (v t : List ℕ) → take (length v) (v ++ t) ≡ v
take-append [] t = refl
take-append (x ∷ v) t = ap (λ r. x ∷ r) (take-append v t)

drop-replicate :
    (k : ℕ) (s : List ℕ) → drop (k + 8) (replicate k b' ' ++ (codes "string \"" ++ s)) ≡ s
drop-replicate zero s = refl
drop-replicate (suc k) s =
    let next : suc k + 8 ≡ suc (k + 8) = omega arith in rw next (drop-replicate k s)

last_quote : (k : ℕ) (v : List ℕ) → rfind_char b'"' (string_line k v) ≡ some (k + 8 + length v)
unfolding rfind_char
last_quote k v =
    rfind_char-append 34 (replicate k 32) (codes "string \"" ++ (v ++ closing)) (8 + length v) (
      rfind_char-append 34 (codes "string \"") (v ++ closing) (length v)
        (rfind_char-append 34 v closing 0 refl ∙ ap some (omega arith))
      ∙ ap some (omega arith))
    ∙ ap some (omega (arith, length-replicate {A = ℕ} k 32))
  where
    closing : List ℕ
    closing = 34 ∷ 10 ∷ []

if_true : {A : Type 0} (b : Bool) (x y : A) → b ≡ true → (if b then x else y) ≡ x
if_true b x y h = rw h refl

pub if_false : {A : Type 0} (b : Bool) (x y : A) → b ≡ false → (if b then x else y) ≡ y
if_false b x y h = rw h refl

if_same : {A : Type 0} (b : Bool) (x : A) → (if b then x else x) ≡ x
if_same b x = if_intro (λ r. r ≡ x) b x x refl refl

hear_value-string :
    (k : ℕ) (v : List ℕ) (s : Listener)
    → hear_value k (some (k + 8 + length v)) (string_line k v) s
      ≡ (if is_empty v then s else take_value v s)
unfolding hear_value
hear_value-string k [] s = rw (ltb-eq-false (k + 8) (k + 8 + 0) (omega arith))
hear_value-string k (c ∷ v) s =
    let within = lt→ltb (k + 8) (k + 8 + suc (length v)) (omega arith) in
    let size : k + 8 + suc (length v) - (k + 8) ≡ suc (length v) = omega arith in
    rw (
      within,
      size,
      drop-replicate k ((c ∷ v) ++ (b'"' ∷ b'\n' ∷ [])),
      take-append v (b'"' ∷ b'\n' ∷ []),
    )

-- A string line is heard while a call is heard; an empty value is not counted.
hear_line-string :
    (k : ℕ) (v : List ℕ) (s : Listener)
    → s.in_notify ≡ true
    → contains (codes "member=Notify") (string_line k v) ≡ false
    → hear_line (string_line k v) s ≡ (if is_empty v then s else take_value v s)
unfolding hear_line hear_argument
hear_line-string k v s on plain = rw plain (
    if_true s.in_notify _ s on
    ∙ rw (find_string k (v ++ (b'"' ∷ b'\n' ∷ [])), last_quote k v) (hear_value-string k v s))

-- A line that neither begins a call nor holds a string nor ends the call.
pub record IsNumber (l : List ℕ) : Type 0 where
  pub plain : contains (codes "member=Notify") l ≡ false
  pub no_string : find (codes "string \"") l ≡ none
  pub no_call : contains (codes "method call") l ≡ false
  pub no_signal : contains (codes "signal") l ≡ false

hear_line-number : (l : List ℕ) (s : Listener) → IsNumber l → hear_line l s ≡ s
unfolding hear_line hear_argument
hear_line-number l s ok =
    rw (ok.plain, ok.no_string, ok.no_call, ok.no_signal) (if_same s.in_notify s)

abbrev pub AreNumbers : List (List ℕ) → Type 0
AreNumbers [] = Unit
AreNumbers (l ∷ ls) = IsNumber l × AreNumbers ls

hear_lines-append :
    (ls rest : List (List ℕ)) (s : Listener)
    → hear_lines (ls ++ rest) s ≡ hear_lines rest (hear_lines ls s)
hear_lines-append [] rest s = refl
hear_lines-append (l ∷ ls) rest s = hear_lines-append ls rest (hear_line l s)

hear_lines-numbers :
    (ls rest : List (List ℕ)) (s : Listener)
    → AreNumbers ls
    → hear_lines (ls ++ rest) s ≡ hear_lines rest s
hear_lines-numbers [] rest s ok = refl
hear_lines-numbers (l ∷ ls) rest s (ok, oks) =
    ap (hear_lines (ls ++ rest)) (hear_line-number l s ok) ∙ hear_lines-numbers ls rest s oks

-- The first line of a call of Notify: everything heard before is forgotten.
abbrev pub called : Listener → Listener
called s = record s {
  in_notify = true;
  string_index = pos 0;
  app_name = [];
  summary = [];
  body = [];
}

hear_line-call :
    (l : List ℕ) (s : Listener)
    → contains (codes "member=Notify") l ≡ true
    → hear_line l s ≡ called s
unfolding hear_line
hear_line-call l s h = rw h refl

-- The lines of a call of Notify, with all strings at one indentation, and further lines.
abbrev pub call :
    List ℕ → List ℕ → ℕ → List ℕ → List ℕ → List ℕ → List ℕ → List (List ℕ) → List (List ℕ)
call first number k app icon title text rest =
    first
    ∷ string_line k app
    ∷ number
    ∷ string_line k icon
    ∷ string_line k title
    ∷ string_line k text
    ∷ rest

-- A value whose line is no beginning of a call.
abbrev pub IsValue : ℕ → List ℕ → Type 0
IsValue k v = contains (codes "member=Notify") (string_line k v) ≡ false

hear_line-value :
    (k : ℕ) (v : List ℕ) (s : Listener)
    → s.in_notify ≡ true
    → IsValue k v
    → is_empty v ≡ false
    → hear_line (string_line k v) s ≡ take_value v s
hear_line-value k v s on plain some_text =
    hear_line-string k v s on plain ∙ if_false (is_empty v) s (take_value v s) some_text

-- The listener after the first, the second and the third text that it counts.
abbrev named : List ℕ → Listener → Listener
named app s = record (called s) { app_name = app; string_index = pos 1 }

abbrev skipped : List ℕ → Listener → Listener
skipped app s = record (named app s) { string_index = pos 2 }

abbrev titled : List ℕ → List ℕ → Listener → Listener
titled app title s = record (skipped app s) { summary = title; string_index = pos 3 }

module _ (first number : List ℕ) (k : ℕ) (app icon title text : List ℕ) (s : Listener)
    (starts : contains (codes "member=Notify") first ≡ true) (is_number : IsNumber number)
    (has_app : IsValue k app) (has_icon : IsValue k icon) (has_title : IsValue k title)
    (has_text : IsValue k text) (app_given : is_empty app ≡ false)
    (title_given : is_empty title ≡ false) (text_given : is_empty text ≡ false) where
  -- What the lines of a call whose four texts are not empty do.
  pub hear_lines-call :
      is_empty icon ≡ false
      → hear_lines (call first number k app icon title text []) s ≡ record s {
        in_notify = false;
        string_index = pos 4;
        app_name = app;
        summary = title;
        body = text;
        queue = push_mock_notification app title text s.queue;
      }
  unfolding take_value
  hear_lines-call icon_given = rw (
    hear_line-call first s starts,
    hear_line-value k app (called s) refl has_app app_given,
    hear_line-number number (named app s) is_number,
    hear_line-value k icon (named app s) refl has_icon icon_given,
    hear_line-value k title (skipped app s) refl has_title title_given,
    hear_line-value k text (titled app title s) refl has_text text_given,
  )

  hear_lines-no_icon :
      is_empty icon ≡ true
      → hear_lines (call first number k app icon title text []) s ≡ titled app text s
  unfolding take_value
  hear_lines-no_icon no_icon = rw (
    hear_line-call first s starts,
    hear_line-value k app (called s) refl has_app app_given,
    hear_line-number number (named app s) is_number,
    hear_line-string k icon (named app s) refl has_icon ∙ if_true (is_empty icon) _ _ no_icon,
    hear_line-value k title (named app s) refl has_title title_given,
    hear_line-value k text (skipped app s) refl has_text text_given,
  )

  -- The same for a call with an empty second text, over lines without a string.
  pub hear_lines-empty_icon :
      (others : List (List ℕ)) (j : ℕ) (next : List ℕ)
      → AreNumbers others
      → IsValue j next
      → is_empty next ≡ false
      → is_empty icon ≡ true
      → hear_lines (call first number k app icon title text (others ++ (string_line j next ∷ []))) s
        ≡ record s {
          in_notify = false;
          string_index = pos 4;
          app_name = app;
          summary = text;
          body = next;
          queue = push_mock_notification app text next s.queue;
        }
  unfolding take_value
  hear_lines-empty_icon others j next pass has_next next_given no_icon =
      hear_lines-append (call first number k app icon title text [])
        (others ++ (string_line j next ∷ [])) s
      ∙ ap (hear_lines (others ++ (string_line j next ∷ []))) (hear_lines-no_icon no_icon)
      ∙ hear_lines-numbers others (string_line j next ∷ []) (titled app text s) pass
      ∙ hear_line-value j next (titled app text s) refl has_next next_given
