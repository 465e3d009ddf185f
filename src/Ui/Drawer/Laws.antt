-- ===== src/Ui/Drawer/Laws.antt =====
-- The drawer of apps/psp/src/ui.c: its rows and their widths.
use psp_dev_link.Base.{
  codes, ℕ, zero, suc, ◌+◌, ◌-◌, ◌≤◌, ◌<◌, ◌≡◌, refl, List, [], ◌∷◌, ◌++◌, Option, some, ◌>>=◌,
  load, length, take, ltb, leb, ◌==◌, ◌&&◌, if◌then◌else◌, if_intro, length-take, arith, true,
  length-append,
}
use psp_dev_link.Payload.Chars.{c_text, IsTerminated}
use psp_dev_link.Payload.Notification.{NotificationPayload, HasTexts}
use psp_dev_link.Ui.{Ui, IsUi, AllTexts}
use psp_dev_link.Ui.Draw.{
  Draw, set_xy, text_color, print, print_number, say, width, c_str, join_texts, dots_before,
}
use psp_dev_link.Ui.Draw.Laws.{c_str_lem, joined, join_texts_lem, cut_lem, length-dots_before}
use psp_dev_link.Ui.Drawer.{drawer_message, drawer_row, drawer_rows, draw_history}

-- Commands that are returned, and print at most `n` characters.
pub record PrintsWithin (n : ℕ) (result : Option (List Draw)) : Type 0 where
  pub commands : List Draw
  pub returns : result ≡ some commands
  pub fits : width commands ≤ n

-- What `drawer_message` makes of a text.
abbrev message_of : ℕ → List ℕ → List ℕ
message_of n text =
    if ltb n (length text) && leb 3 n then dots_before n (take n text) else take n text

drawer_message_lem :
    (n : ℕ) (text : List ℕ) → n < 128 → drawer_message n text ≡ some (message_of n text)
unfolding drawer_message
drawer_message_lem n text small = rw (cut_lem 128 n text small)

length-message_of : (n : ℕ) (text : List ℕ) → length (message_of n text) ≤ n
length-message_of n text =
    if_intro (λ (s : List ℕ). length s ≤ n) (ltb n (length text) && leb 3 n) _ _
      (omega (arith, length-dots_before n (take n text), length-take n text))
      (omega (arith, length-take n text))

-- Every row of the drawer is drawn when the texts of its notification end and the name has at
-- most 55 characters, and the row prints at most 61 characters and its number.
pub drawer_row_width :
    (i : ℕ) (n : NotificationPayload)
    → HasTexts n
    → length (c_text n.app_name) ≤ 55
    → PrintsWithin 61 (drawer_row i n)
unfolding drawer_row
drawer_row_width i n texts short = record {
  commands =
      set_xy 2 (8 + i)
      ∷ text_color 0xFF00FFFF
      ∷ say "["
      ∷ print_number (i + 1)
      ∷ say "] "
      ∷ text_color 0xFFFFFF00
      ∷ print (c_text n.app_name ++ codes ": ")
      ∷ text_color 0xFFFFFFFF
      ∷ print (message_of cols (joined 128 n.summary n.body))
      ∷ [];
  returns = rw (
    c_str_lem n.app_name texts.name_ends,
    join_texts_lem 128 n.summary n.body texts.summary_ends texts.body_ends,
    drawer_message_lem cols (joined 128 n.summary n.body) (omega arith),
    room,
  );
  fits = omega (
    arith,
    length-append (c_text n.app_name) (codes ": "),
    length-message_of cols (joined 128 n.summary n.body),
  );
}
  where
    cols : ℕ
    cols = 62 - (4 + length (c_text n.app_name) + 2)

    room : ltb 0 (62 - (4 + length (c_text n.app_name) + 2)) ≡ true
    room = ground (arith, short)

-- A call that returns.
pub record Returns {ℓ} {A : Type ℓ} (result : Option A) : Type ℓ where
  pub value : A
  pub returns : result ≡ some value

pub some-Returns {ℓ} : {A : Type ℓ} (v : A) → Returns (some v)
some-Returns v = record { value = v; returns = refl }

-- What is returned is passed on to a call that returns.
pub bind-Returns {ℓ κ} :
    {A : Type ℓ} {B : Type κ} (m : Option A) (f : A → Option B)
    → Returns m
    → ((v : A) → Returns (f v))
    → Returns (m >>= f)
bind-Returns m f r k = record {
  value = (k r.value).value;
  returns = rw r.returns (k r.value).returns;
}

pub c_str-Returns : (s : List ℕ) → IsTerminated s → Returns (c_str s)
c_str-Returns s ends = record { value = c_text s; returns = c_str_lem s ends }

drawer_row-Returns : (i : ℕ) (n : NotificationPayload) → HasTexts n → Returns (drawer_row i n)
unfolding drawer_row drawer_message join_texts
drawer_row-Returns i n texts = bind-Returns _ _ (c_str-Returns n.app_name texts.name_ends) (λ app.
    bind-Returns _ _ (text 128) (λ t. bind-Returns _ _ (message app t) (λ m. some-Returns _)))
  where
    text : (size : ℕ) → Returns (join_texts size n.summary n.body)
    text size = record {
      value = joined size n.summary n.body;
      returns = join_texts_lem size n.summary n.body texts.summary_ends texts.body_ends;
    }

    message :
        (app t : List ℕ)
        → Returns (
            if ltb 0 (62 - (4 + length app + 2))
            then (drawer_message (62 - (4 + length app + 2)) t >>= λ msg. some (print msg ∷ []))
            else some [])
    message app t =
        if_intro Returns (ltb 0 (62 - (4 + length app + 2))) _ _
          (bind-Returns _ _
            (record { value = message_of _ t; returns = drawer_message_lem _ t (omega arith) })
            (λ m. some-Returns _))
          (some-Returns [])

AllTexts-get_elem? :
    (h : List NotificationPayload) (i : ℕ)
    → AllTexts h
    → i < length h
    → (n : NotificationPayload) × (load h i ≡ some n) × HasTexts n
AllTexts-get_elem? [] i texts h = absurd (omega arith)
AllTexts-get_elem? (n ∷ ns) zero texts h = (n, refl, texts.0)
AllTexts-get_elem? (_ ∷ ns) (suc i) texts h = AllTexts-get_elem? ns i texts.1 (omega arith)

drawer_rows-Returns :
    (left i : ℕ) (h : List NotificationPayload)
    → AllTexts h
    → i + left ≤ length h
    → Returns (drawer_rows left i h)
unfolding drawer_rows
drawer_rows-Returns zero i h texts room = some-Returns []
drawer_rows-Returns (suc left) i h texts room =
    let (n, found, ends) = AllTexts-get_elem? h i texts (omega arith) in
    let row = drawer_row-Returns i n ends in
    let rows = drawer_rows-Returns left (suc i) h texts (omega arith) in
    record { value = row.value ++ rows.value; returns = rw (found, row.returns, rows.returns) }

pub draw_history-Returns : (u : Ui) → IsUi u → Returns (draw_history u)
unfolding draw_history
draw_history-Returns u ok =
    bind-Returns _ _
      (if_intro Returns (u.notif_history_count == 0) _ _ (some-Returns _) (
        drawer_rows-Returns u.notif_history_count 0 u.notif_history ok.texts
          (let f : u.notif_history_count ≤ 5 = ok.count_fits in omega (arith, ok.five))))
      (λ rows. some-Returns _)
