-- ===== src/Ui/Frame/Laws.antt =====
-- The whole frame of apps/psp/src/ui.c, drawn from a valid state.
use psp_dev_link.Base.{ℕ, ◌≡◌, refl, List, [], Option, some, ◌>>=◌, if_intro, arith}
use psp_dev_link.Payload.Chars.{IsTerminated}
use psp_dev_link.Payload.SystemStats.{SystemStatsPayload}
use psp_dev_link.Payload.GitStatus.{GitStatusPayload}
use psp_dev_link.Payload.Notification.{NotificationPayload, HasTexts}
use psp_dev_link.Transport.{StatusMessage}
use psp_dev_link.Ui.{Ui, IsUi, tick_popup, swap_buffers}
use psp_dev_link.Ui.State.{ui_operations-IsUi}
use psp_dev_link.Ui.Cards.{UiConnectionState, draw_git, draw_cards}
use psp_dev_link.Ui.Draw.{Draw, c_str, cut}
use psp_dev_link.Ui.Draw.Laws.{cut_lem}
use psp_dev_link.Ui.Drawer.Laws.{
  Returns, some-Returns, bind-Returns, c_str-Returns, draw_history-Returns,
}
use psp_dev_link.Ui.Popup.{ui_draw_popup, popup_title, popup_body}
use psp_dev_link.Ui.Ticker.{draw_ticker}
use psp_dev_link.Ui.Ticker.Laws.{draw_ticker_width}
use psp_dev_link.Ui.Frame.{ui_render}

draw_cards-Returns :
    (conn : UiConnectionState) (stats : SystemStatsPayload) (git : GitStatusPayload)
    → IsTerminated git.branch_name
    → Returns (draw_cards conn (some stats) (some git))
unfolding draw_cards draw_git
draw_cards-Returns UiConnectionState.ui_disconnected stats git ends = some-Returns _
draw_cards-Returns UiConnectionState.ui_connected stats git ends =
    bind-Returns _ _
      (bind-Returns _ _ (c_str-Returns git.branch_name ends) (λ branch. some-Returns _))
      (λ right. some-Returns _)

ui_draw_popup-Returns :
    (ticks : ℕ) (n : NotificationPayload) → HasTexts n → Returns (ui_draw_popup ticks n)
unfolding ui_draw_popup popup_title popup_body
ui_draw_popup-Returns ticks n texts =
    bind-Returns _ _ (c_str-Returns n.app_name texts.name_ends) (λ app.
      bind-Returns _ _ (copied n.summary texts.summary_ends)
        (λ title. bind-Returns _ _ (copied n.body texts.body_ends) (λ body. some-Returns _)))
  where
    copied : (s : List ℕ) → IsTerminated s → Returns (c_str s >>= λ t. cut 41 40 t)
    copied s ends =
        bind-Returns _ _ (c_str-Returns s ends)
          (λ t. record { value = _; returns = cut_lem 41 40 t (omega arith) })

-- A frame that is drawn, with the state after it, which is the popup's tick and the swap of the
-- two buffers and is valid again.
pub record Renders (u : Ui) (result : Option (List Draw × Ui)) : Type 0 where
  pub frame : List Draw
  pub after : Ui
  pub returns : result ≡ some (frame, after)
  pub stepped : after ≡ swap_buffers (tick_popup u)
  pub valid : IsUi after

bind-Renders {ℓ} :
    {A : Type ℓ} (u : Ui) (m : Option A) (f : A → Option (List Draw × Ui))
    → Returns m
    → ((v : A) → Renders u (f v))
    → Renders u (m >>= f)
bind-Renders u m f r k = record {
  frame = (k r.value).frame;
  after = (k r.value).after;
  returns = rw r.returns (k r.value).returns;
  stepped = (k r.value).stepped;
  valid = (k r.value).valid;
}

frame-Renders :
    (u : Ui) (frame : List Draw) → IsUi u → Renders u (some (frame, swap_buffers (tick_popup u)))
frame-Renders u frame ok = record {
  frame = frame;
  after = swap_buffers (tick_popup u);
  returns = refl;
  stepped = refl;
  valid =
      let (_, _, _, _, ticked, _) = ui_operations-IsUi u ok in
      let (_, _, _, _, _, swapped) = ui_operations-IsUi (tick_popup u) ticked in swapped;
}

-- Rendering a frame always comes to its end when the user interface is valid and the texts it is
-- given end, connected or not, with the drawer open or not and with a popup or not. All that it
-- changes is the popup's tick and the two frame buffers, which it swaps, and the state is valid
-- again.
pub ui_render-Renders :
    (conn : UiConnectionState) (stats : SystemStatsPayload) (git : GitStatusPayload)
    (n : NotificationPayload) (status : StatusMessage) (u : Ui)
    → IsTerminated git.branch_name
    → HasTexts n
    → IsUi u
    → Renders u (ui_render conn (some stats) (some git) (some n) status u)
unfolding ui_render
ui_render-Renders conn stats git n status u branch texts ok =
    bind-Renders u _ _
      (if_intro Returns u.showing_history _ _ (draw_history-Returns u ok)
        (draw_cards-Returns conn stats git branch))
      (λ middle. bind-Renders u _ _ ticker (λ cells.
        bind-Renders u _ _
          (if_intro Returns u.popup_active _ _
            (ui_draw_popup-Returns u.popup_ticks u.active_popup_notif ok.popup_texts)
            (some-Returns []))
          (λ popup. frame-Renders u _ ok)))
  where
    ticker : Returns (draw_ticker conn (some n))
    ticker =
        let drawn = draw_ticker_width conn n texts in
        record { value = drawn.commands; returns = drawn.returns }
