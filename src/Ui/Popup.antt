-- ===== src/Ui/Popup.antt =====
-- `ui_draw_popup` of apps/psp/src/ui.c.
use psp_dev_link.Base.{
  codes, ℕ, zero, suc, ◌+◌, ◌/◌, List, [], ◌∷◌, ◌++◌, Option, some, ◌>>=◌, ◌==◌, ◌||◌, ◌&&◌,
  if◌then◌else◌,
}
use psp_dev_link.Payload.Notification.{NotificationPayload}
use psp_dev_link.Ui.Draw.{Draw, set_xy, text_color, print, print_number, say, c_str, cut}

abbrev pub start_row : ℕ
start_row = 7

abbrev pub end_row : ℕ
end_row = 15

abbrev pub start_col : ℕ
start_col = 10

abbrev pub end_col : ℕ
end_col = 57

-- The body of the inner loop.
unfoldable pub popup_cell : ℕ → ℕ → List Draw
popup_cell r c =
    if r == start_row && c == start_col
    then text_color 0xFF888888 ∷ say "+" ∷ []
    else if r == start_row && c == end_col
    then say "+" ∷ []
    else if r == end_row && c == start_col
    then say "+" ∷ []
    else if r == end_row && c == end_col
    then say "+" ∷ []
    else if r == start_row || r == end_row
    then text_color 0xFF888888 ∷ say "=" ∷ []
    else if c == start_col || c == end_col
    then text_color 0xFF888888 ∷ say "|" ∷ []
    else say " " ∷ []

-- The inner loop from column `c` on, with `left` columns to go.
unfoldable pub popup_columns : ℕ → ℕ → ℕ → List Draw
unfolding popup_cell
popup_columns zero r c = []
popup_columns (suc left) r c = popup_cell r c ++ popup_columns left r (suc c)

-- The outer loop from row `r` on: 48 columns in each row.
unfoldable pub popup_rows : ℕ → ℕ → List Draw
unfolding popup_columns
popup_rows zero r = []
popup_rows (suc left) r =
    (set_xy start_col r ∷ popup_columns 48 r start_col) ++ popup_rows left (suc r)

-- The texts that the popup shows: `strncpy` into arrays of 41 characters.
unfoldable pub popup_title : NotificationPayload → Option (List ℕ)
unfolding cut c_str
popup_title n = c_str n.summary >>= λ s. cut 41 40 s

unfoldable pub popup_body : NotificationPayload → Option (List ℕ)
unfolding cut c_str
popup_body n = c_str n.body >>= λ s. cut 41 40 s

unfoldable pub ui_draw_popup : ℕ → NotificationPayload → Option (List Draw)
unfolding popup_rows popup_title popup_body c_str
ui_draw_popup ticks n = do
  app ← c_str n.app_name
  title ← popup_title n
  body ← popup_body n
  some (
      popup_rows 9 start_row
      ++ (set_xy (start_col + 2) (start_row + 1)
          ∷ text_color 0xFF00FFFF
          ∷ say "[NEW NOTIFICATION]"
          ∷ set_xy (start_col + 2) (start_row + 2)
          ∷ text_color 0xFFFFFF00
          ∷ print (codes "App  : " ++ app)
          ∷ set_xy (start_col + 2) (start_row + 3)
          ∷ text_color 0xFFFFFFFF
          ∷ print (codes "Title: " ++ title)
          ∷ set_xy (start_col + 2) (start_row + 4)
          ∷ text_color 0xFFCCCCCC
          ∷ print (codes "Body : " ++ body)
          ∷ set_xy (start_col + 2) (start_row + 6)
          ∷ text_color 0xFF555555
          ∷ say "[ Auto-closing in "
          ∷ print_number ((ticks + 99) / 100)
          ∷ say "s | O to dismiss ]"
          ∷ []))
