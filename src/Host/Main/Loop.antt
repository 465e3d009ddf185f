-- ===== src/Host/Main/Loop.antt =====
-- The handshake, the periodic packets and one iteration of apps/desktop/src/main.cpp.
use psp_dev_link.Base.{
  ℕ, List, ◌++◌, Option, none, some, ◌>>=◌, replicate, codes, Bool, true, false, leb, ◌&&◌,
  if◌then◌else◌, store_all,
}
use psp_dev_link.Packet.{MessageId, packet_header_size, deserialize_header}
use psp_dev_link.App.Payload.{is_ok}
use psp_dev_link.Host.System.{SystemService, SystemMetrics}
use psp_dev_link.Host.System
use psp_dev_link.Host.Git
use psp_dev_link.Host.Git.{GitMetrics}
use psp_dev_link.Host.Notifications.{NotificationMetrics, get_latest}
use psp_dev_link.Host.Transport.{HostReceived}
use psp_dev_link.Host.Http.{update_telemetry, update_git, add_log}
use psp_dev_link.Host.Frames.{
  bare_frame, stats_frame, git_frame, notification_frame, shared_telemetry, shared_git,
}
use psp_dev_link.Host.Main.Link.{HostLink}
use psp_dev_link.Host.Main.{
  ConnectionState, Host, Inputs, Flow, goes_on, continues, seconds_since, milliseconds_since,
  is_due, log, lose, is_hello_reply, blank_header, is_error, send_or_lose, poll_commands,
  search_device, complete_handshake,
}

-- What follows, unless `continue` was met.
unfoldable pub proceed :
    {T : Type 0} → Option (Flow T) → (Host → T → Option (Flow T)) → Option (Flow T)
proceed none next = none
proceed (some (continues h t)) next = some (continues h t)
proceed (some (goes_on h t)) next = next h t

abbrev pub is_connected : ConnectionState → Bool
is_connected ConnectionState.connected = true
is_connected _ = false

abbrev pub is_handshaking : ConnectionState → Bool
is_handshaking ConnectionState.handshaking = true
is_handshaking _ = false

abbrev pub is_disconnected : ConnectionState → Bool
is_disconnected ConnectionState.disconnected = true
is_disconnected _ = false

abbrev pub lost : List ℕ
lost = codes "Connection lost. Disconnecting..."

abbrev pub captured_text : NotificationMetrics → List ℕ
captured_text m = codes "Notification captured: [" ++ (m.app_name ++ (codes "] " ++ m.summary))

unfoldable pub captured : NotificationMetrics → Host → Host
unfolding add_log
captured m h = log (captured_text m) (codes "info") h

module _ {T : Type 0} (link : HostLink T) where
  unfoldable pub send_hello : Inputs → Host → T → Option (Flow T)
  unfolding send_or_lose
  send_hello i h t =
      let sending =
        send_or_lose link (codes "Failed to send HELLO packet. Disconnecting...")
          (bare_frame MessageId.hello) (λ h'. record h' { last_hello_time = i.hello_time }) h t in
      if leb 1 (seconds_since i.hello_time h.last_hello_time) then sending else some (goes_on h t)

  -- What was received is looked at if it is a whole header.
  unfoldable pub hear_reply : Inputs → Host → HostReceived → T → Option (Flow T)
  unfolding complete_handshake lose
  hear_reply i h r t =
      let heard = (do
        rx_buf ← store_all 0 r.stored (replicate 12 0)
        (ret, header) ← deserialize_header (some rx_buf) r.received (some blank_header)
        some (goes_on (if is_hello_reply ret header then complete_handshake link i h else h) t)) in
      if is_ok r.result && leb packet_header_size r.received
      then heard
      else if is_error r.result
      then some (lose link (codes "Transport error during handshaking. Disconnecting...") h t)
      else some (goes_on h t)

  unfoldable pub handshake : Inputs → Host → T → Option (Flow T)
  unfolding send_hello hear_reply proceed
  handshake i h t =
      proceed (send_hello i h t)
        (λ h' t'. let (r, t'') = link.receive packet_header_size t' in hear_reply i h' r t'')

  unfoldable pub send_heartbeat : Inputs → Host → T → Option (Flow T)
  unfolding send_or_lose
  send_heartbeat i h t =
      let sending =
        send_or_lose link lost (bare_frame MessageId.heartbeat)
          (λ h'. record h' { last_heartbeat_time = i.now }) h t in
      if leb 2 (seconds_since i.now h.last_heartbeat_time) then sending else some (goes_on h t)

  unfoldable pub send_stats : Inputs → Host → T → Option (Flow T)
  unfolding send_or_lose update_telemetry shared_telemetry
  send_stats i h t =
      let (service, metrics) = System.get_metrics i.readings h.system_service in
      let told : Host = record h {
        system_service = service;
        server = update_telemetry (shared_telemetry metrics) h.server;
      } in
      let sending =
        send_or_lose link lost (stats_frame metrics) (λ h'. record h' { last_stats_time = i.now })
          told t in
      if is_due (milliseconds_since i.now h.last_stats_time) h.server.config.telemetry_interval_ms
      then sending
      else some (goes_on h t)

  -- Without git its timer is set anew.
  unfoldable pub send_git : Inputs → Host → T → Option (Flow T)
  unfolding send_or_lose update_git shared_git
  send_git i h t =
      let metrics : GitMetrics = Git.get_metrics i.git_output in
      let told : Host = record h { server = update_git (shared_git metrics) h.server } in
      let sending =
        send_or_lose link lost (git_frame metrics) (λ h'. record h' { last_git_time = i.now }) told
          t in
      if h.server.config.enable_git
      then (if is_due (milliseconds_since i.now h.last_git_time) h.server.config.git_interval_ms
          then sending
          else some (goes_on h t))
      else some (goes_on (record h { last_git_time = i.now }) t)

  unfoldable pub send_notification : Inputs → Host → T → Option (Flow T)
  unfolding send_or_lose get_latest captured
  send_notification i h t =
      let (metrics, rest) = get_latest h.notifications in
      let taken : Host = record h { notifications = rest } in
      let sending =
        send_or_lose link lost (notification_frame metrics)
          (λ h'. record h' { last_notif_time = i.now }) (captured metrics taken) t in
      if h.server.config.enable_notif
      then (if is_due (milliseconds_since i.now h.last_notif_time) h.server.config.notif_interval_ms
          then (if metrics.is_new
              then sending
              else some (goes_on (record taken { last_notif_time = i.now }) t))
          else some (goes_on h t))
      else some (goes_on (record h { last_notif_time = i.now }) t)

  -- What arrives is thrown away.
  unfoldable pub clear_channel : Host → T → Option (Flow T)
  unfolding lose
  clear_channel h t =
      let (r, t') = link.receive packet_header_size t in
      if is_error r.result then some (lose link lost h t') else some (goes_on h t')

  unfoldable pub work : Inputs → Host → T → Option (Flow T)
  unfolding proceed send_heartbeat send_stats send_git send_notification clear_channel
  work i h t = proceed (send_heartbeat i h t) (λ h1 t1. proceed (send_stats i h1 t1) (λ h2 t2.
      proceed (send_git i h2 t2)
        (λ h3 t3. proceed (send_notification i h3 t3) (λ h4 t4. clear_channel h4 t4))))

  -- One iteration of `while (true)`.
  unfoldable pub iterate : Inputs → Host → T → Option (Flow T)
  unfolding proceed poll_commands search_device handshake work
  iterate i h t =
      let polled = poll_commands link h t in
      proceed (if is_connected h.state then polled else some (goes_on h t)) (λ h1 t1.
        proceed
          (if is_disconnected h1.state
            then some (search_device link i h1 t1)
            else some (goes_on h1 t1))
          (λ h2 t2.
            proceed (if is_handshaking h2.state then handshake i h2 t2 else some (goes_on h2 t2))
              (λ h3 t3. if is_connected h3.state then work i h3 t3 else some (goes_on h3 t3))))
