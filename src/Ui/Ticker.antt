-- ===== src/Ui/Ticker.antt =====
-- The notification ticker of `ui_render` in apps/psp/src/ui.c: row 22 of the screen.
pub mod Laws
use psp_dev_link.Base.{
  codes, ℕ, zero, suc, ◌+◌, ◌-◌, List, [], ◌∷◌, ◌++◌, Option, none, some, ◌>>=◌, load, length, take,
  Bool, true, false, ltb, leb, ◌==◌, ◌&&◌, if◌then◌else◌,
}
use psp_dev_link.Payload.Notification.{NotificationPayload}
use psp_dev_link.Ui.Cards.{UiConnectionState, ui_connected}
use psp_dev_link.Ui.Draw.{
  Draw, set_xy, text_color, print, say, c_str, join_texts, cut, dots_before, repeat_print,
}

-- `msg_truncated` for a text and the columns that are left on the row.
unfoldable pub ticker_message : ℕ → List ℕ → Option (List ℕ)
unfolding cut
ticker_message max_msg_len text = do
  msg ← cut 128 max_msg_len text
  some (
      if ltb max_msg_len (length text) && leb 3 (length msg)
      then dots_before (length msg) msg
      else msg)

-- `app_str`, which `snprintf` cuts at 31 characters.
unfoldable pub ticker_name : NotificationPayload → Option (List ℕ)
unfolding c_str
ticker_name n = c_str n.app_name >>= λ app. some (take 31 (app ++ codes ": "))

-- The commands of a row with a notification, and `cols_printed` after them. `66 - cols_printed` is
-- an `int`; where it would be negative it is 0 here, which the test does not tell apart.
unfoldable pub ticker_row : NotificationPayload → Option (List Draw × ℕ)
unfolding ticker_message ticker_name join_texts
ticker_row n = do
  app ← ticker_name n
  text ← join_texts 128 n.summary n.body
  let cols = 8 + length app
  let max_msg_len = 66 - cols
  let written = ticker_message max_msg_len text >>= λ msg. some (print msg ∷ [], cols + length msg)
  (message, cols') ← (if ltb 0 max_msg_len then written else some ([], cols))
  some (
    text_color 0xFF00FFFF
        ∷ say "[NOTIF] "
        ∷ text_color 0xFFFFFF00
        ∷ print app
        ∷ text_color 0xFFFFFFFF
        ∷ message,
    cols',
  )

abbrev pub no_ticker : List Draw × ℕ
no_ticker = (text_color 0xFF555555 ∷ say "[NOTIF] No notifications received" ∷ [], 33)

-- `conn_state == UI_CONN_CONNECTED && notif != NULL && notif->app_name[0] != '\0'`
unfoldable pub ticker_cells :
    UiConnectionState → Option NotificationPayload → Option (List Draw × ℕ)
unfolding ticker_row
ticker_cells UiConnectionState.ui_connected (some n) = do
  first ← load n.app_name 0
  let row = ticker_row n
  if first == 0 then some no_ticker else row
ticker_cells _ _ = some no_ticker

-- The row, filled up with spaces to column 67.
unfoldable pub draw_ticker : UiConnectionState → Option NotificationPayload → Option (List Draw)
unfolding ticker_cells
draw_ticker conn notif = do
  (cells, cols_printed) ← ticker_cells conn notif
  some (
      (set_xy 1 22 ∷ cells)
      ++ ((text_color 0xFFFFFFFF ∷ []) ++ repeat_print (67 - cols_printed) (codes " ")))
