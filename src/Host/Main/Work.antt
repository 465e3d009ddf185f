-- ===== src/Host/Main/Work.antt =====
-- The periodic packets of apps/desktop/src/main.cpp.
use psp_dev_link.Base.{◌≤◌, ◌<◌, ◌^◌, ◌≡◌, Option, length, codes, leb, if_intro, arith}
use psp_dev_link.Packet.{MessageId, packet_header_size, header_bytes}
use psp_dev_link.Router.Delivery.{Message, message_bytes, wire_size}
use psp_dev_link.Host.Http.{update_telemetry, update_git}
use psp_dev_link.Host.Http.Laws.{add_log-bounded}
use psp_dev_link.Host.System
use psp_dev_link.Host.Git
use psp_dev_link.Host.Git.Laws.{get_metrics-fits}
use psp_dev_link.Host.Notifications.{get_latest}
use psp_dev_link.Host.Frames.{
  frame_header, git_payload, notification_payload, stats_payload, shared_git, shared_telemetry,
}
use psp_dev_link.Host.Frames.Laws.{
  message_frame, bare_frame_lem, stats_frame_lem, git_frame_lem, notification_frame_lem,
  length-message_bytes,
}
use psp_dev_link.Host.Main.Link.{HostLink, SoundHostLink}
use psp_dev_link.Host.Main.{Host, Inputs, Flow, is_error, seconds_since, milliseconds_since, is_due}
use psp_dev_link.Host.Main.Loop.{
  proceed, send_heartbeat, send_stats, send_git, captured, send_notification, clear_channel, work,
  captured_text, lost,
}
use psp_dev_link.Host.Main.Laws.{
  Runs, run, proceed-Runs, lose-Ends, send_or_lose-Runs, send_if_due, stays,
}
use psp_dev_link.Host.Main.Laws.{Connected}

-- A frame has at most 140 bytes.
message_frame_size : (m : Message) → length (message_frame m) < 2 ^ 31
message_frame_size m =
    let size : length (message_bytes m) ≡ wire_size m = length-message_bytes m in
    let few : wire_size m ≤ 128 = at_most m in omega (arith, size, few)
  where
    at_most : (m : Message) → wire_size m ≤ 128
    at_most (Message.stats s) = omega arith
    at_most (Message.git g) = omega arith
    at_most (Message.notification n) = omega arith
    at_most (Message.control c) = omega arith

module _ {T : Type 0} (link : HostLink T) (sound : SoundHostLink link) where
  open sound use {Valid, initializes, sends, receives, shuts_down}

  send_heartbeat-Runs :
      (i : Inputs) (h : Host) (t : T)
      → (Connected link sound) h t
      → Runs link sound (Connected link sound) (send_heartbeat link i h t)
  unfolding send_heartbeat
  send_heartbeat-Runs i h t (s, ok, open_device) =
      send_if_due link sound (Connected link sound)
        (leb 2 (seconds_since i.now h.last_heartbeat_time)) _
        (header_bytes (frame_header MessageId.heartbeat 0)) _
        (λ h'. record h' { last_heartbeat_time = i.now }) h h t (bare_frame_lem MessageId.heartbeat)
        (omega arith) ok open_device (λ t' valid. (s, ok, valid)) (s, ok, open_device)

  send_stats-Runs :
      (i : Inputs) (h : Host) (t : T)
      → (Connected link sound) h t
      → Runs link sound (Connected link sound) (send_stats link i h t)
  unfolding send_stats update_telemetry
  send_stats-Runs i h t (s, ok, open_device) =
      let m = (System.get_metrics i.readings h.system_service).1 in
      send_if_due link sound (Connected link sound)
        (is_due (milliseconds_since i.now h.last_stats_time) h.server.config.telemetry_interval_ms)
        _ (message_frame (Message.stats (stats_payload m))) _
        (λ h'. record h' { last_stats_time = i.now })
        (record h {
          system_service = (System.get_metrics i.readings h.system_service).0;
          server = update_telemetry (shared_telemetry m) h.server;
        })
        h t (stats_frame_lem m) (omega arith) ok open_device (λ t' valid. (s, ok, valid))
        (s, ok, open_device)

  send_git-Runs :
      (i : Inputs) (h : Host) (t : T)
      → (Connected link sound) h t
      → Runs link sound (Connected link sound) (send_git link i h t)
  unfolding send_git update_git
  send_git-Runs i h t (s, ok, open_device) =
      let m = Git.get_metrics i.git_output in
      let (small, fits) = get_metrics-fits i.git_output in
      if_intro (Runs link sound (Connected link sound)) h.server.config.enable_git _ _
        (send_if_due link sound (Connected link sound)
          (is_due (milliseconds_since i.now h.last_git_time) h.server.config.git_interval_ms) _
          (message_frame (Message.git (git_payload m))) _
          (λ h'. record h' { last_git_time = i.now })
          (record h { server = update_git (shared_git m) h.server }) h t
          (git_frame_lem m small fits) (message_frame_size (Message.git (git_payload m))) ok
          open_device (λ t' valid. (s, ok, valid)) (s, ok, open_device))
        (stays link sound (Connected link sound) (record h { last_git_time = i.now }) t
          (s, ok, open_device))

  send_notification-Runs :
      (i : Inputs) (h : Host) (t : T)
      → (Connected link sound) h t
      → Runs link sound (Connected link sound) (send_notification link i h t)
  unfolding send_notification captured
  send_notification-Runs i h t (s, ok, open_device) =
      let (m, rest) = get_latest h.notifications in
      let taken : Host = record h { notifications = rest } in
      let noted = add_log-bounded (captured_text m) (codes "info") h.server ok in
      if_intro (Runs link sound (Connected link sound)) h.server.config.enable_notif _ _
        (if_intro (Runs link sound (Connected link sound))
          (is_due (milliseconds_since i.now h.last_notif_time) h.server.config.notif_interval_ms) _
          _
          (if_intro (Runs link sound (Connected link sound)) m.is_new _ _
            (send_or_lose-Runs link sound (Connected link sound) _
              (message_frame (Message.notification (notification_payload m))) _
              (λ h'. record h' { last_notif_time = i.now }) (captured m taken) t
              (notification_frame_lem m)
              (message_frame_size (Message.notification (notification_payload m))) noted open_device
              (λ t' valid. (s, noted, valid)))
            (stays link sound (Connected link sound) (record taken { last_notif_time = i.now }) t
              (s, ok, open_device)))
          (stays link sound (Connected link sound) h t (s, ok, open_device)))
        (stays link sound (Connected link sound) (record h { last_notif_time = i.now }) t
          (s, ok, open_device))

  clear_channel-Runs :
      (h : Host) (t : T)
      → (Connected link sound) h t
      → Runs link sound (Connected link sound) (clear_channel link h t)
  unfolding clear_channel
  clear_channel-Runs h t (s, ok, open_device) =
      let (valid, _, _, _) = receives packet_header_size t (omega arith) open_device in
      let t' = (link.receive packet_header_size t).1 in
      if_intro (Runs link sound (Connected link sound))
        (is_error (link.receive packet_header_size t).0.result) _ _
        (run link sound (Connected link sound) _
          (lose-Ends link sound (Connected link sound) lost h t' ok valid))
        (stays link sound (Connected link sound) h t' (s, ok, valid))

  pub work-Runs :
      (i : Inputs) (h : Host) (t : T)
      → (Connected link sound) h t
      → Runs link sound (Connected link sound) (work link i h t)
  unfolding work
  work-Runs i h t ok =
      then_runs (send_heartbeat link i h t) _ (send_heartbeat-Runs i h t ok) (λ h1 t1 ok1.
        then_runs (send_stats link i h1 t1) _ (send_stats-Runs i h1 t1 ok1) (λ h2 t2 ok2.
          then_runs (send_git link i h2 t2) _ (send_git-Runs i h2 t2 ok2) (λ h3 t3 ok3.
            then_runs (send_notification link i h3 t3) _ (send_notification-Runs i h3 t3 ok3)
              (λ h4 t4 ok4. clear_channel-Runs h4 t4 ok4))))
    where
      then_runs :
          (r : Option (Flow T)) (next : Host → T → Option (Flow T))
          → Runs link sound (Connected link sound) r
          → ((h : Host) (t : T)
              → (Connected link sound) h t
              → Runs link sound (Connected link sound) (next h t))
          → Runs link sound (Connected link sound) (proceed r next)
      then_runs r next =
          proceed-Runs link sound (Connected link sound) (Connected link sound) r next
