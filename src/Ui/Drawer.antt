-- ===== src/Ui/Drawer.antt =====
-- The notification history drawer of `ui_render` in apps/psp/src/ui.c.
pub mod Laws
use psp_dev_link.Base.{
  codes, ℕ, zero, suc, ◌+◌, ◌-◌, List, [], ◌∷◌, ◌++◌, Option, none, some, ◌>>=◌, load, length, ltb,
  leb, ◌==◌, ◌&&◌, if◌then◌else◌,
}
use psp_dev_link.Payload.Notification.{NotificationPayload}
use psp_dev_link.Ui.{Ui}
use psp_dev_link.Ui.Draw.{
  Draw, set_xy, text_color, print, print_number, say, c_str, join_texts, cut, dots_before,
}

-- `final_msg` for a text and the columns that remain.
unfoldable pub drawer_message : ℕ → List ℕ → Option (List ℕ)
unfolding cut
drawer_message remaining_cols text = do
  msg ← cut 128 remaining_cols text
  some (
      if ltb remaining_cols (length text) && leb 3 remaining_cols
      then dots_before remaining_cols msg
      else msg)

-- One row of the drawer. `62 - prefix_len` is an `int`; where it would be negative it is 0 here,
-- which the test for a positive number does not tell apart.
unfoldable pub drawer_row : ℕ → NotificationPayload → Option (List Draw)
unfolding drawer_message join_texts c_str
drawer_row i n = do
  app ← c_str n.app_name
  text ← join_texts 128 n.summary n.body
  let remaining_cols = 62 - (4 + length app + 2)
  let printed = drawer_message remaining_cols text >>= λ msg. some (print msg ∷ [])
  message ← (if ltb 0 remaining_cols then printed else some [])
  some (
      set_xy 2 (8 + i)
      ∷ text_color 0xFF00FFFF
      ∷ say "["
      ∷ print_number (i + 1)
      ∷ say "] "
      ∷ text_color 0xFFFFFF00
      ∷ print (app ++ codes ": ")
      ∷ text_color 0xFFFFFFFF
      ∷ message)

-- The loop over the entries, with `left` of them to go.
unfoldable pub drawer_rows : ℕ → ℕ → List NotificationPayload → Option (List Draw)
unfolding drawer_row
drawer_rows zero i h = some []
drawer_rows (suc left) i h = do
  n ← load h i
  row ← drawer_row i n
  rows ← drawer_rows left (suc i) h
  some (row ++ rows)

unfoldable pub draw_history : Ui → Option (List Draw)
unfolding drawer_rows
draw_history u = do
  let header : List Draw =
      set_xy 2 6
      ∷ text_color 0xFF00FFFF
      ∷ say "--- NOTIFICATION HISTORY DRAWER (Last "
      ∷ print_number u.notif_history_count
      ∷ say ") ---"
      ∷ []
  let empty : List Draw =
      set_xy 5 10 ∷ text_color 0xFF555555 ∷ say "[ No notifications in history ]" ∷ []
  let help : List Draw =
      set_xy 2 15 ∷ text_color 0xFF555555 ∷ say "[ SELECT: Back | CIRCLE: Clear History ]" ∷ []
  let entries = drawer_rows u.notif_history_count 0 u.notif_history
  rows ← (if u.notif_history_count == 0 then some empty else entries)
  some (header ++ (rows ++ help))
