-- ===== src/Host/Frames/Laws.antt =====
-- The bytes of the packets of apps/desktop/src/main.cpp, and what the console makes of them.
use psp_dev_link.Base.{
  ℕ, ◌+◌, ◌≤◌, ◌≡◌, refl, ap, ◌∙◌, List, [], ◌∷◌, ◌++◌, Option, some, ℤ, pos, drop, replicate,
  length, length-replicate, length-drop, length-append, arith, ◌^◌, ◌<◌,
}
use psp_dev_link.Host.Lists.{append_nil, drop-short}
use psp_dev_link.Packet.{MessageId, header_bytes, packet_header_size}
use psp_dev_link.Packet.Laws.{serialize_header_lem}
use psp_dev_link.Payload.Chars.{nul_padded}
use psp_dev_link.Payload.Chars.Laws.{length-nul_padded}
use psp_dev_link.Payload.Control.{serialize_control}
use psp_dev_link.Payload.SystemStats.{serialize_system_stats, stats_bytes}
use psp_dev_link.Payload.SystemStats.Laws.{serialize_system_stats_lem}
use psp_dev_link.Payload.GitStatus.{serialize_git_status, git_bytes, IsGit}
use psp_dev_link.Payload.GitStatus.Laws.{serialize_git_status_lem}
use psp_dev_link.Payload.Notification.{serialize_notification, notification_bytes, IsNotification}
use psp_dev_link.Payload.Notification.Laws.{serialize_notification_lem}
use psp_dev_link.Router.Delivery.{Message, message_bytes, kind, wire_size}
use psp_dev_link.Host.Git.{GitMetrics}
use psp_dev_link.Host.Notifications.{NotificationMetrics}
use psp_dev_link.Host.System.{SystemMetrics}
use psp_dev_link.Host.Frames.{
  frame_header, bare_frame, frame, control_frame, stats_frame, stats_payload, git_frame,
  git_payload, notification_frame, notification_payload,
}

-- The bytes of a message behind its header.
abbrev pub message_frame : Message → List ℕ
message_frame m = header_bytes (frame_header (kind m) (wire_size m)) ++ message_bytes m

pub bare_frame_lem : (id : MessageId) → bare_frame id ≡ some (header_bytes (frame_header id 0))
unfolding bare_frame
bare_frame_lem id = rw (
    serialize_header_lem (frame_header id 0) (replicate 12 0) packet_header_size (omega arith)
      (omega arith))

-- A serialiser that fills the room behind the header.
frame_lem :
    (id : MessageId) (size : ℕ) (bytes : List ℕ)
    (write : Option (List ℕ) → ℕ → Option (ℤ × Option (List ℕ)))
    → ((buf : List ℕ) → length buf ≡ size → write (some buf) size ≡ some (pos 0, some bytes))
    → frame id size write ≡ some (header_bytes (frame_header id size) ++ bytes)
unfolding frame
frame_lem id size bytes write writes =
    let room : List ℕ = replicate (packet_header_size + size) 0 in
    let long : length room ≡ 12 + size = length-replicate (packet_header_size + size) 0 in
    let left : length (drop 12 room) ≡ size = omega (arith, length-drop 12 room, long) in
    let enough : 12 ≤ length room = omega (arith, long) in
    let same : packet_header_size ≤ packet_header_size = omega arith in
    rw (
      serialize_header_lem (frame_header id size) room packet_header_size same enough,
      writes (drop 12 room) left,
    )

filled : (bytes rest : List ℕ) → rest ≡ [] → bytes ++ rest ≡ bytes
filled bytes rest e = ap (λ r. bytes ++ r) e ∙ append_nil bytes

pub control_frame_lem :
    (c : ℕ) → control_frame c ≡ some (message_frame (Message.control (record { command_id = c })))
unfolding control_frame serialize_control
control_frame_lem c =
    frame_lem MessageId.control 1 (c ∷ []) (serialize_control (some (record { command_id = c })))
      one
  where
    one :
        (buf : List ℕ)
        → length buf ≡ 1
        → serialize_control (some (record { command_id = c })) (some buf) 1
          ≡ some (pos 0, some (c ∷ []))
    one [] h = absurd (omega arith)
    one (x ∷ []) h = refl
    one (x ∷ y ∷ s) h = absurd (omega arith)

pub stats_frame_lem :
    (m : SystemMetrics) → stats_frame m ≡ some (message_frame (Message.stats (stats_payload m)))
unfolding stats_frame
stats_frame_lem m =
    frame_lem MessageId.system_stats 20 (stats_bytes (stats_payload m))
      (serialize_system_stats (some (stats_payload m)))
      (λ buf h.
        serialize_system_stats_lem (stats_payload m) buf 20 (omega arith) (omega arith)
        ∙ ap (λ r. some (pos 0, some r)) (filled _ (drop 20 buf) (drop-short 20 buf (omega arith))))

pub git_payload-IsGit :
    (m : GitMetrics)
    → m.modified_files < 2 ^ 32
    → m.untracked_files < 2 ^ 32
    → IsGit (git_payload m)
git_payload-IsGit m small fits = record {
  modified_fits = small;
  untracked_fits = fits;
  name_length = length-nul_padded 31 m.branch_name;
}

pub git_frame_lem :
    (m : GitMetrics)
    → m.modified_files < 2 ^ 32
    → m.untracked_files < 2 ^ 32
    → git_frame m ≡ some (message_frame (Message.git (git_payload m)))
unfolding git_frame
git_frame_lem m small fits =
    frame_lem MessageId.git_status 40 (git_bytes (git_payload m))
      (serialize_git_status (some (git_payload m)))
      (λ buf h.
        serialize_git_status_lem (git_payload m) buf 40 (git_payload-IsGit m small fits)
          (omega arith) (omega arith)
        ∙ ap (λ r. some (pos 0, some r))
            (filled _ (drop 32 (drop 8 buf))
              (drop-short 32 (drop 8 buf) (omega (arith, length-drop 8 buf)))))

pub notification_payload-IsNotification :
    (m : NotificationMetrics) → IsNotification (notification_payload m)
notification_payload-IsNotification m = record {
  name_length = length-nul_padded 23 m.app_name;
  summary_length = length-nul_padded 51 m.summary;
  body_length = length-nul_padded 51 m.body;
}

pub notification_frame_lem :
    (m : NotificationMetrics)
    → notification_frame m ≡ some (message_frame (Message.notification (notification_payload m)))
unfolding notification_frame
notification_frame_lem m =
    frame_lem MessageId.notification 128 (notification_bytes (notification_payload m))
      (serialize_notification (some (notification_payload m)))
      (λ buf h.
        serialize_notification_lem (notification_payload m) buf 128
          (notification_payload-IsNotification m) (omega arith) (omega arith)
        ∙ ap (λ r. some (pos 0, some r))
            (filled _ (drop 128 buf) (drop-short 128 buf (omega arith))))

pub length-message_bytes : (m : Message) → length (message_bytes m) ≡ wire_size m
length-message_bytes (Message.stats s) = refl
length-message_bytes (Message.git g) = omega (arith, length-nul_padded 31 g.branch_name)
length-message_bytes (Message.notification n) =
    let a = nul_padded 23 n.app_name in
    let b = nul_padded 51 n.summary in
    let c = nul_padded 51 n.body in
    omega (
      arith,
      length-append a (b ++ c),
      length-append b c,
      length-nul_padded 23 n.app_name,
      length-nul_padded 51 n.summary,
      length-nul_padded 51 n.body,
    )
length-message_bytes (Message.control c) = refl
