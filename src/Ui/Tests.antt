-- ===== src/Ui/Tests.antt =====
-- Runs of apps/psp/src/ui.c on concrete notifications, and its theorems applied to them.
use psp_dev_link.Base.{◌≡◌, refl, [], ◌∷◌, ◌++◌, some, leb, replicate, arith}
use psp_dev_link.Payload.Notification.{NotificationPayload, HasTexts}
use psp_dev_link.Router.{initial_router}
use psp_dev_link.Transport.{StatusMessage}
use psp_dev_link.Ui.{
  Ui, IsUi, initial_ui, trigger_popup, ui_add_notification, ui_toggle_history,
  ui_close_active_popup, ui_clear_history, ui_handle_circle_press, tick_popup, swap_buffers,
}
use psp_dev_link.Ui.State.{
  CirclePress, initial_ui-IsUi, ui_operations-IsUi, ui_handle_circle_press_effect, popup_frames,
  popup_lifetime,
}
use psp_dev_link.Ui.History.{Adds, ui_add_notification-Adds}
use psp_dev_link.Ui.Drawer.{drawer_row}
use psp_dev_link.Ui.Drawer.Laws.{PrintsWithin, drawer_row_width}
use psp_dev_link.Ui.Ticker.{draw_ticker}
use psp_dev_link.Ui.Ticker.Laws.{PrintsExactly, draw_ticker_width}
use psp_dev_link.Ui.Cards.{UiConnectionState}
use psp_dev_link.Ui.Frame.{ui_render}
use psp_dev_link.Ui.Frame.Laws.{Renders, ui_render-Renders}

abbrev mail : NotificationPayload
mail = record {
  app_name = b'm' ∷ b'a' ∷ b'i' ∷ b'l' ∷ replicate 20 0;
  summary = b'h' ∷ b'i' ∷ replicate 50 0;
  body = replicate 51 b'x' ++ 0 ∷ [];
}

mail_texts : HasTexts mail
mail_texts = record { name_ends = tt; summary_ends = tt; body_ends = tt }

-- A popup that has just been raised.
abbrev alerted : Ui
alerted = trigger_popup mail initial_ui

ui_add_notification-Adds_example : Adds mail initial_ui (ui_add_notification (some mail) initial_ui)
ui_add_notification-Adds_example =
    ui_add_notification-Adds mail initial_ui initial_ui-IsUi mail_texts

ui_operations-IsUi_example :
    IsUi (ui_toggle_history initial_ui)
    × IsUi (ui_close_active_popup initial_ui)
    × IsUi (ui_clear_history initial_ui)
    × IsUi (ui_handle_circle_press initial_ui)
    × IsUi (tick_popup initial_ui)
    × IsUi (swap_buffers initial_ui)
ui_operations-IsUi_example = ui_operations-IsUi initial_ui initial_ui-IsUi

ui_handle_circle_press_effect_example : CirclePress alerted (ui_handle_circle_press alerted)
ui_handle_circle_press_effect_example = ui_handle_circle_press_effect alerted

popup_lifetime_example : (popup_frames 3 alerted).popup_active ≡ leb 3 500
popup_lifetime_example = popup_lifetime 3 alerted refl

drawer_row_width_example : PrintsWithin 61 (drawer_row 0 mail)
drawer_row_width_example = drawer_row_width 0 mail mail_texts (omega arith)

draw_ticker_width_example :
    PrintsExactly 67 (draw_ticker UiConnectionState.ui_connected (some mail))
draw_ticker_width_example = draw_ticker_width UiConnectionState.ui_connected mail mail_texts

ui_render-Renders_example : Renders alerted (
    ui_render UiConnectionState.ui_connected
      (some initial_router.current_stats)
      (some initial_router.current_git)
      (some mail)
      StatusMessage.waiting_for_host
      alerted)
ui_render-Renders_example =
    ui_render-Renders UiConnectionState.ui_connected initial_router.current_stats
      initial_router.current_git mail StatusMessage.waiting_for_host alerted tt mail_texts
      alerted_valid
  where
    alerted_valid : IsUi alerted
    alerted_valid = record {
      five = refl;
      count_fits = omega arith;
      texts = initial_ui-IsUi.texts;
      popup_texts = mail_texts;
      ticks_fit = omega arith;
      buffers = initial_ui-IsUi.buffers;
    }
