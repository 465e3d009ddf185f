-- ===== src/Host/Main/Commands.antt =====
-- A command from the dashboard of apps/desktop/src/http_server.cpp to the loop of main.cpp.
use psp_dev_link.Base.{ℕ, ◌≡◌, refl, List, some, codes, length, false}
use psp_dev_link.Router.Delivery.{Message}
use psp_dev_link.Host.Text.{text_eq}
use psp_dev_link.Host.Http.{post_control, check_and_clear_exit, check_and_clear_reboot, add_log}
use psp_dev_link.Host.Http.Params.{get_query_param}
use psp_dev_link.Host.Frames.Laws.{message_frame, control_frame_lem}
use psp_dev_link.Host.Main.Link.{HostLink}
use psp_dev_link.Host.Main.{Host, goes_on, poll_commands, send_command}

-- The host after a POST to a path.
abbrev pub posted : List ℕ → Host → Host
posted path h = record h { server = (post_control path h.server).1 }

-- The bytes of the command to exit.
abbrev pub exit_frame : List ℕ
exit_frame = message_frame (Message.control (record { command_id = 1 }))

-- The host after the command was sent.
abbrev pub told : Host → Host
told h = record h {
  server =
      add_log (codes "Sending remote Exit to XMB command...") (codes "info")
        (record h.server { trigger_exit = false });
}

module _ {T : Type 0} (link : HostLink T) where
  -- With no reboot asked for, a POST that asks for `exit` makes the next look at the commands send
  -- the frame with the command 1, and only once: the look after that sends nothing and leaves the
  -- link as it is.
  pub poll_commands-exit :
      (path : List ℕ) (h : Host) (t t' : T)
      → get_query_param path (codes "action") ≡ codes "exit"
      → h.server.trigger_reboot ≡ false
      → (h' : Host) × (poll_commands link (posted path h) t
          ≡ some (goes_on h' (link.send exit_frame (length exit_frame) t).1))
        × ((h'' : Host) × (poll_commands link h' t' ≡ some (goes_on h'' t')))
  unfolding poll_commands post_control check_and_clear_exit check_and_clear_reboot text_eq
      send_command add_log
  poll_commands-exit path h t t' asked no_reboot =
      (told h, rw (asked, control_frame_lem 1), idle no_reboot)
    where
      idle :
          h.server.trigger_reboot ≡ false
          → (h'' : Host) × (poll_commands link (told h) t' ≡ some (goes_on h'' t'))
      idle calm = rw calm (_, refl)
