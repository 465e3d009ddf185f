-- ===== src/App/Loop.antt =====
-- One iteration of the loop of apps/psp/src/main.c, on a link that keeps the transport's promises.
use psp_dev_link.Base.{◌≡◌, refl, Option, some, ◌==◌, ◌||◌, if_intro}
use psp_dev_link.Ui.Frame.Laws.{ui_render-Renders}
use psp_dev_link.App.Payload.{Link}
use psp_dev_link.App.Payload.Laws.{SoundLink}
use psp_dev_link.App.{
  App, Buttons, Outcome, running, exited, rebooted, shortcuts, press_select, press_circle, watchdog,
  serve, iterate, ui_state,
}
use psp_dev_link.App.State.{
  IsApp, IsApp-ui, shortcuts-IsRouter, press_select-IsApp, press_circle-IsApp, watchdog-IsApp,
  forward_notification-Forwards,
}
use psp_dev_link.App.Packets.{receive_packet-Handles}

-- What an iteration leaves behind.
abbrev pub IsOutcome : {T : Type 0} → (T → Type 0) → Outcome T → Type 0
IsOutcome Valid (running a t frame) = IsApp a × Valid t
IsOutcome Valid (exited a t) = IsApp a × Valid t
IsOutcome Valid (rebooted a t) = IsApp a × Valid t

module _ {T : Type 0} (link : Link T) (sound : SoundLink link) where
  open sound use {Valid, receives, sends, delays, shuts}

  -- An iteration that ends, in whichever way, with a valid state and link.
  pub record Iterates (result : Option (Outcome T)) : Type 0 where
    pub outcome : Outcome T
    pub returns : result ≡ some outcome
    pub valid : IsOutcome Valid outcome

  serve-Iterates : (a : App) (t : T) → IsApp a → Valid t → Iterates (serve link a t)
  unfolding serve
  serve-Iterates a t ok valid =
      let h = receive_packet-Handles link sound a t ok valid in
      let f =
        forward_notification-Forwards (watchdog h.after) (watchdog-IsApp h.after h.app_valid) in
      let r =
        ui_render-Renders (ui_state f.after.state) f.after.router.current_stats
          f.after.router.current_git f.after.router.current_notif (link.status_msg h.link_after)
          f.after.ui f.app_valid.router_valid.git_name_ends f.app_valid.router_valid.notif_texts
          f.app_valid.ui_valid in
      record {
        outcome =
            running (record f.after { ui = r.after }) (link.delay_thread 10000 h.link_after)
              r.frame;
        returns = rw (h.returns, f.returns, r.returns);
        valid = (
          IsApp-ui f.after r.after f.after.select_was_pressed f.after.circle_was_pressed f.app_valid
              r.valid,
          delays 10000 h.link_after h.link_valid,
        );
      }

  -- From a valid state and link, on a link that keeps the transport's promises, an iteration of
  -- the loop always comes to its end, whatever the buttons, the state of the connection and the
  -- bytes that arrive: no array is left, no text runs past its end and no loop runs on. It gives a
  -- valid state and link again.
  pub iterate-Iterates :
      (pad : Buttons) (a : App) (t : T) → IsApp a → Valid t → Iterates (iterate link pad a t)
  unfolding iterate
  iterate-Iterates pad a t ok valid =
      if_intro Iterates (pad.start || a.router.remote_command == 1) _ _
        (record {
          outcome = exited a (link.shutdown t);
          returns = refl;
          valid = (ok, shuts t valid);
        })
        (if_intro Iterates ((shortcuts pad a.router).remote_command == 2) _ _
          (record {
            outcome = rebooted a1 (link.shutdown (link.delay_thread 100000 t));
            returns = refl;
            valid = (ok1, shuts (link.delay_thread 100000 t) (delays 100000 t valid));
          })
          (serve-Iterates (press_circle pad (press_select pad a1)) t
            (press_circle-IsApp pad _ (press_select-IsApp pad a1 ok1)) valid))
    where
      a1 : App
      a1 = record a { router = shortcuts pad a.router }

      ok1 : IsApp (record a { router = shortcuts pad a.router })
      ok1 = record {
        router_valid = shortcuts-IsRouter pad a.router ok.router_valid;
        ui_valid = ok.ui_valid;
        room = ok.room;
        are_bytes = ok.are_bytes;
        alive = ok.alive;
      }
