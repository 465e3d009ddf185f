-- ===== src/Host/Main.antt =====
-- apps/desktop/src/main.cpp: the loop that keeps the console connected and informed.
--
-- An iteration is a function of the state, the readings of the clock and what the services read.
-- The clock counts nanoseconds from a moment at least two seconds before the program starts.
-- Messages to the terminal are left out; those to the dashboard are kept.
pub mod Link
pub mod Loop
pub mod Laws
pub mod Work
pub mod Shake
pub mod Iteration
pub mod Usb
pub mod Trace
pub mod Commands
use psp_dev_link.Base.{
  ℕ, zero, ◌+◌, ◌-◌, ◌*◌, ◌/◌, List, [], ◌∷◌, ◌++◌, Option, none, some, ℤ, pos, negsuc, ◌>>=◌,
  replicate, length, codes, Bool, true, false, not, leb, ◌==◌, ◌&&◌, if◌then◌else◌, store_all,
}
use psp_dev_link.Packet.{
  PacketHeader, MessageId, message_code, packet_header_size, deserialize_header,
}
use psp_dev_link.Transport.{TransportResult}
use psp_dev_link.App.Payload.{is_ok}
use psp_dev_link.Host.Config.{default_config, File, load, ConfigService}
use psp_dev_link.Host.System.{SystemService, Readings, CpuTicks, start}
use psp_dev_link.Host.Git.{GitOutput}
use psp_dev_link.Host.Notifications.{NotificationMetrics, Queue, get_latest}
use psp_dev_link.Host.Transport.{HostReceived}
use psp_dev_link.Host.Http.{
  new_server, HttpServer, update_connection_state, update_telemetry, update_git, add_log,
  check_and_clear_exit, check_and_clear_reboot,
}
use psp_dev_link.Host.Frames.{
  bare_frame, control_frame, stats_frame, git_frame, notification_frame, shared_telemetry,
  shared_git,
}
use psp_dev_link.Host.Main.Link.{HostLink}

pub data ConnectionState : Type 0 where
  disconnected handshaking connected : ConnectionState

-- The locals of `main`, with the services and the server that they share.
pub record Host : Type 0 where
  pub state : ConnectionState
  pub last_hello_time : ℕ
  pub last_heartbeat_time : ℕ
  pub last_stats_time : ℕ
  pub last_git_time : ℕ
  pub last_notif_time : ℕ
  pub system_service : SystemService
  pub notifications : Queue
  pub server : HttpServer

-- The state in front of the loop, from the file of the settings, the first reading of the
-- processor's counters, the clock and the queue.
unfoldable pub launched : File → Option CpuTicks → ℕ × ℕ × ℕ × ℕ × ℕ → Queue → Host
unfolding load new_server start
launched f ticks (hello, heartbeat, stats, git, notif) q =
    let (c, f') = load default_config f in
    record {
      state = ConnectionState.disconnected;
      last_hello_time = hello;
      last_heartbeat_time = heartbeat;
      last_stats_time = stats;
      last_git_time = git;
      last_notif_time = notif;
      system_service = start ticks;
      notifications = q;
      server = new_server c f';
    }

-- What an iteration reads: the clock, by the place of the reading, and the services' sources.
pub record Inputs : Type 0 where
  pub connect_time : ℕ
  pub hello_time : ℕ
  pub connected_times : ℕ × ℕ × ℕ × ℕ
  pub now : ℕ
  pub readings : Readings
  pub git_output : GitOutput

-- What is left of an iteration: it goes on, or `continue` ends it.
pub data Flow (T : Type 0) : Type 0 where
  goes_on continues : Host → T → Flow T

abbrev pub seconds_since : ℕ → ℕ → ℕ
seconds_since now last = (now - last) / 1000000000

abbrev pub milliseconds_since : ℕ → ℕ → ℕ
milliseconds_since now last = (now - last) / 1000000

-- `count >= interval`, with an interval that can be negative.
abbrev pub is_due : ℕ → ℤ → Bool
is_due count (pos interval) = leb interval count
is_due count (negsuc n) = true

abbrev pub log : List ℕ → List ℕ → Host → Host
unfolding add_log
log msg type h = record h { server = add_log msg type h.server }

-- A failure disconnects, with a message.
unfoldable pub lose : {T : Type 0} → HostLink T → List ℕ → Host → T → Flow T
unfolding add_log
lose link msg h t =
    continues (record (log msg (codes "error") h) { state = ConnectionState.disconnected })
      (link.shutdown t)

abbrev pub is_hello : PacketHeader → Bool
is_hello header = header.message_id == message_code MessageId.hello

-- `pspl_deserialize_header(...) == 0`, and the message is a HELLO; of any version.
abbrev pub is_hello_reply : ℤ → Option PacketHeader → Bool
is_hello_reply (pos zero) (some header) = is_hello header
is_hello_reply _ _ = false

abbrev pub blank_header : PacketHeader
blank_header = record { magic = 0; protocol_version = 0; message_id = 0; payload_size = 0 }

abbrev pub is_error : TransportResult → Bool
is_error TransportResult.error = true
is_error _ = false

module _ {T : Type 0} (link : HostLink T) where
  -- The frame is sent; the rest runs if that worked, with what is set after it.
  unfoldable pub send_or_lose :
      List ℕ → Option (List ℕ) → (Host → Host) → Host → T → Option (Flow T)
  unfolding lose
  send_or_lose msg frame after h t = do
    tx_buf ← frame
    let (sent, t') = link.send tx_buf (length tx_buf) t
    some (if is_ok sent then goes_on (after h) t' else lose link msg h t')

  -- The commands of the dashboard; the result of the send is not looked at.
  unfoldable pub send_command : ℕ → List ℕ → Host → T → Option (Flow T)
  unfolding add_log
  send_command command msg h t = do
    tx_buf ← control_frame command
    some (goes_on (log msg (codes "info") h) (link.send tx_buf (length tx_buf) t).1)

  unfoldable pub poll_commands : Host → T → Option (Flow T)
  unfolding send_command check_and_clear_exit check_and_clear_reboot
  poll_commands h t =
      let (exit, s1) = check_and_clear_exit h.server in
      let (reboot, s2) = check_and_clear_reboot s1 in
      let exiting =
        send_command 1 (codes "Sending remote Exit to XMB command...") (record h { server = s1 })
          t in
      let rebooting =
        send_command 2 (codes "Sending remote Reboot Console command...") (record h { server = s2 })
          t in
      if exit
      then exiting
      else if reboot
      then rebooting
      else some (goes_on (record h { server = s2 }) t)

  unfoldable pub search_device : Inputs → Host → T → Flow T
  unfolding update_connection_state add_log
  search_device i h t =
      let searching : Host = record h {
        server = update_connection_state (codes "DISCONNECTED") h.server;
      } in
      let (r, t') = link.initialize t in
      let found : Host =
        log (codes "PSP Connected. Handshaking...") (codes "info") (record searching {
          server = update_connection_state (codes "HANDSHAKING") searching.server;
        }) in
      if is_ok r
      then goes_on
          (record found {
            state = ConnectionState.handshaking;
            last_hello_time = i.connect_time - 2000000000;
          })
          t'
      else continues searching t'

  unfoldable pub complete_handshake : Inputs → Host → Host
  unfolding update_connection_state add_log
  complete_handshake i h =
      let (heartbeat, stats, git, notif) = i.connected_times in
      let shown : Host = record h {
        server = update_connection_state (codes "CONNECTED") h.server;
      } in
      record (log (codes "Handshake Complete. Connected successfully!") (codes "success") shown) {
        state = ConnectionState.connected;
        last_heartbeat_time = heartbeat;
        last_stats_time = stats;
        last_git_time = git;
        last_notif_time = notif;
      }
