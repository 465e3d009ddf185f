-- ===== src/Ui/Frame.antt =====
-- `ui_init` and `ui_render` of apps/psp/src/ui.c: the frame as a whole, and the state after it.
pub mod Laws
use psp_dev_link.Base.{
  codes, ℕ, ◌-◌, List, [], ◌∷◌, ◌++◌, Option, none, some, ◌>>=◌, Bool, true, false, if◌then◌else◌,
}
use psp_dev_link.Payload.SystemStats.{SystemStatsPayload}
use psp_dev_link.Payload.GitStatus.{GitStatusPayload}
use psp_dev_link.Payload.Notification.{NotificationPayload}
use psp_dev_link.Transport.{StatusMessage}
use psp_dev_link.Ui.{Ui, tick_popup, swap_buffers}
use psp_dev_link.Ui.Cards.{UiConnectionState, ui_connected, ui_disconnected, draw_cards}
use psp_dev_link.Ui.Draw.{
  Draw, set_offset, clear, set_xy, text_color, back_color, print, print_status, screen_init,
  wait_vblank, set_frame_buf, say, repeat_print,
}
use psp_dev_link.Ui.Drawer.{draw_history}
use psp_dev_link.Ui.Popup.{ui_draw_popup}
use psp_dev_link.Ui.Ticker.{draw_ticker}

unfoldable pub ui_init : Ui → List Draw
ui_init u =
    screen_init
    ∷ set_offset 0
    ∷ set_frame_buf u.disp_buf
    ∷ text_color 0xFFFFFFFF
    ∷ back_color 0xFF000000
    ∷ clear
    ∷ []

-- Rows 0 to 2.
abbrev pub draw_header : List Draw
draw_header =
    set_xy 0 0
    ∷ text_color 0xFF888888
    ∷ say "+---------------------------------------------------------------+"
    ∷ set_xy 0 1
    ∷ say "|              "
    ∷ text_color 0xFFFFFF00
    ∷ say "PSP DEVLINK COMPANION DASHBOARD"
    ∷ text_color 0xFF888888
    ∷ say "               |"
    ∷ set_xy 0 2
    ∷ say "+---------------------------------------------------------------+"
    ∷ []

abbrev link_text : UiConnectionState → List Draw
link_text UiConnectionState.ui_connected =
    text_color 0xFF00FF00 ∷ say "[ CONNECTED ]              " ∷ []
link_text UiConnectionState.ui_disconnected =
    text_color 0xFF00FFFF ∷ say "[ SEARCHING FOR HOST... ]  " ∷ []

-- Rows 4 and 5.
unfoldable pub draw_link_status : UiConnectionState → StatusMessage → List Draw
draw_link_status conn status =
    (set_xy 2 4 ∷ text_color 0xFFFFFFFF ∷ say "Link Status: " ∷ [])
    ++ (link_text conn
        ++ (set_xy 2 5 ∷ text_color 0xFF888888 ∷ say "System Status: " ∷ print_status status ∷ []))

-- Rows 18 to 20.
abbrev pub draw_footer : List Draw
draw_footer =
    text_color 0xFF888888
    ∷ set_xy 0 18
    ∷ say "+---------------------------------------------------------------+"
    ∷ set_xy 0 19
    ∷ say "| Press "
    ∷ text_color 0xFFFFFF00
    ∷ say "START"
    ∷ text_color 0xFF888888
    ∷ say " to exit client application                          |"
    ∷ set_xy 0 20
    ∷ say "+---------------------------------------------------------------+"
    ∷ []

-- `pspDebugScreenSetOffset` takes the draw buffer's distance from the start of the video memory.
unfoldable pub ui_render :
    UiConnectionState
    → Option SystemStatsPayload
    → Option GitStatusPayload
    → Option NotificationPayload
    → StatusMessage
    → Ui
    → Option (List Draw × Ui)
unfolding draw_link_status tick_popup swap_buffers
ui_render conn stats git notif status u = do
  let drawer = draw_history u
  let cards = draw_cards conn stats git
  middle ← (if u.showing_history then drawer else cards)
  ticker ← draw_ticker conn notif
  let overlay = ui_draw_popup u.popup_ticks u.active_popup_notif
  popup ← (if u.popup_active then overlay else some [])
  some (
    (set_offset (u.draw_buf - 0x04000000) ∷ clear ∷ draw_header)
        ++ (draw_link_status conn status
            ++ (middle
                ++ (draw_footer
                    ++ (ticker
                        ++ ((set_xy 1 23 ∷ repeat_print 66 (codes " "))
                            ++ (popup ++ (wait_vblank ∷ set_frame_buf u.draw_buf ∷ []))))))),
    swap_buffers (tick_popup u),
  )
