-- ===== src/App/State.antt =====
-- What a valid state of apps/psp/src/main.c is; the buttons, the watchdog and the forwarding of a
-- notification.
use psp_dev_link.Base.{
  ℕ, zero, suc, ◌+◌, ◌<◌, ◌≤◌, ◌≡◌, refl, Option, some, length, replicate, Bool, true, false, not,
  ltb, ◌==◌, ◌&&◌, if◌then◌else◌, if_intro, Bool-cases, inl, inr, arith,
}
use psp_dev_link.Wire.{IsBytes}
use psp_dev_link.Router.{Router, IsRouter}
use psp_dev_link.Router.Laws.{initial_router-IsRouter}
use psp_dev_link.Ui.{Ui, IsUi, ui_add_notification}
use psp_dev_link.Ui.State.{initial_ui-IsUi, ui_toggle_history-IsUi, ui_operations-IsUi}
use psp_dev_link.Ui.History.{Adds, ui_add_notification-Adds}
use psp_dev_link.App.{
  App, initial_app, ConnectionState, Buttons, is_connected, shortcuts, press_select, press_circle,
  watchdog, forward_notification,
}

-- The globals are valid, the buffer for payloads has its 512 bytes, and a connection has not yet
-- run out of time.
pub record IsApp (a : App) : Type 0 where
  pub router_valid : IsRouter a.router
  pub ui_valid : IsUi a.ui
  pub room : length a.payload_buf ≡ 512
  pub are_bytes : IsBytes a.payload_buf
  pub alive : is_connected a.state ≡ true → a.ticks_since_last_packet ≤ 500

pub replicate_zero-IsBytes : (n : ℕ) → IsBytes (replicate n 0)
replicate_zero-IsBytes zero = tt
replicate_zero-IsBytes (suc n) = (omega arith, replicate_zero-IsBytes n)

pub initial_app-IsApp : IsApp initial_app
initial_app-IsApp = record {
  router_valid = initial_router-IsRouter;
  ui_valid = initial_ui-IsUi;
  room = refl;
  are_bytes = replicate_zero-IsBytes 512;
  alive = λ e. omega arith;
}

pub shortcuts-IsRouter : (pad : Buttons) (r : Router) → IsRouter r → IsRouter (shortcuts pad r)
unfolding shortcuts
shortcuts-IsRouter pad r ok =
    if_intro IsRouter (pad.select && pad.triangle) _ _ (commanded exit 2 exit_ok (omega arith))
      exit_ok
  where
    commanded :
        (r : Router) (c : ℕ) → IsRouter r → c < 256 → IsRouter (record r { remote_command = c })
    commanded r c ok fits = record {
      stats_valid = ok.stats_valid;
      git_valid = ok.git_valid;
      notif_valid = ok.notif_valid;
      git_name_ends = ok.git_name_ends;
      notif_texts = ok.notif_texts;
      command_fits = fits;
    }

    exit : Router
    exit = if pad.select && pad.square then record r { remote_command = 1 } else r

    exit_ok : IsRouter (if pad.select && pad.square then record r { remote_command = 1 } else r)
    exit_ok = if_intro IsRouter (pad.select && pad.square) _ r (commanded r 1 ok (omega arith)) ok

-- The state with another user interface and other values for what a button left.
pub IsApp-ui :
    (a : App) (u : Ui) (s c : Bool)
    → IsApp a
    → IsUi u
    → IsApp (record a { ui = u; select_was_pressed = s; circle_was_pressed = c })
IsApp-ui a u s c ok fine = record {
  router_valid = ok.router_valid;
  ui_valid = fine;
  room = ok.room;
  are_bytes = ok.are_bytes;
  alive = ok.alive;
}

pub press_select-IsApp : (pad : Buttons) (a : App) → IsApp a → IsApp (press_select pad a)
unfolding press_select
press_select-IsApp pad a ok =
    if_intro IsApp (pad.select && not pad.square && not pad.triangle) _ _
      (if_intro IsApp a.select_was_pressed a _ ok
        (IsApp-ui a _ true a.circle_was_pressed ok (ui_toggle_history-IsUi a.ui ok.ui_valid)))
      (IsApp-ui a a.ui false a.circle_was_pressed ok ok.ui_valid)

pub press_circle-IsApp : (pad : Buttons) (a : App) → IsApp a → IsApp (press_circle pad a)
unfolding press_circle
press_circle-IsApp pad a ok =
    let (_, _, _, circled, _, _) = ui_operations-IsUi a.ui ok.ui_valid in
    if_intro IsApp pad.circle _ _
      (if_intro IsApp a.circle_was_pressed a _ ok
        (IsApp-ui a _ a.select_was_pressed true ok circled))
      (IsApp-ui a a.ui a.select_was_pressed false ok ok.ui_valid)

alive_after :
    (n : ℕ) (s : ConnectionState)
    → is_connected (if ltb 500 n then ConnectionState.disconnected else s) ≡ true
    → n ≤ 500
alive_after n s h = elim (Bool-cases (ltb 500 n)) [
  | inl late ↦ let no : false ≡ true = (rw late at h) in absurd (ground arith)
  | inr early ↦ ground (arith, early)
]

pub watchdog-IsApp : (a : App) → IsApp a → IsApp (watchdog a)
unfolding watchdog
watchdog-IsApp a ok =
    if_intro IsApp (is_connected a.state) _ a
      (record {
        router_valid = ok.router_valid;
        ui_valid = ok.ui_valid;
        room = ok.room;
        are_bytes = ok.are_bytes;
        alive = alive_after (a.ticks_since_last_packet + 1) a.state;
      })
      ok

-- A new notification that has been passed on.
pub record Forwards (result : Option App) : Type 0 where
  pub after : App
  pub returns : result ≡ some after
  pub app_valid : IsApp after

pub forward_notification-Forwards : (a : App) → IsApp a → Forwards (forward_notification a)
unfolding forward_notification
forward_notification-Forwards a ok =
    if_intro Forwards (a.router.new_notification_received == 0) _ _
      (record { after = a; returns = refl; app_valid = ok })
      (record {
        after = record a {
          ui = added.after;
          router = record a.router { new_notification_received = 0 };
        };
        returns = rw added.returns;
        app_valid = record {
          router_valid = record {
            stats_valid = ok.router_valid.stats_valid;
            git_valid = ok.router_valid.git_valid;
            notif_valid = ok.router_valid.notif_valid;
            git_name_ends = ok.router_valid.git_name_ends;
            notif_texts = ok.router_valid.notif_texts;
            command_fits = ok.router_valid.command_fits;
          };
          ui_valid = added.keeps;
          room = ok.room;
          are_bytes = ok.are_bytes;
          alive = ok.alive;
        };
      })
  where
    added :
        Adds a.router.current_notif a.ui (ui_add_notification (some a.router.current_notif) a.ui)
    added =
        ui_add_notification-Adds a.router.current_notif a.ui ok.ui_valid ok.router_valid.notif_texts
