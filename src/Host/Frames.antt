-- ===== src/Host/Frames.antt =====
-- The packets that apps/desktop/src/main.cpp builds: the header and a payload in one buffer.
--
-- A local buffer is modelled as cleared; every byte of it is written before it is sent.
pub mod Laws
use psp_dev_link.Base.{
  ℕ, ◌+◌, ◌-◌, ◌^◌, ◌%◌, List, [], ◌++◌, Option, some, ℤ, pos, negsuc, ◌>>=◌, take, drop, replicate,
  ltb, if◌then◌else◌,
}
use mathlib.Core.Option.{get_or}
use psp_dev_link.Packet.{
  PacketHeader, MessageId, message_code, packet_header_size, protocol_magic, serialize_header,
}
use psp_dev_link.Payload.Chars.{nul_padded}
use psp_dev_link.Payload.Control.{control_size, serialize_control}
use psp_dev_link.Payload.SystemStats.{SystemStatsPayload, system_stats_size, serialize_system_stats}
use psp_dev_link.Payload.GitStatus.{GitStatusPayload, git_status_size, serialize_git_status}
use psp_dev_link.Payload.Notification.{
  NotificationPayload, notification_size, serialize_notification,
}
use psp_dev_link.Host.System.{SystemMetrics}
use psp_dev_link.Host.Git.{GitMetrics}
use psp_dev_link.Host.Notifications.{NotificationMetrics}
use psp_dev_link.Host.Http.Json.{SharedTelemetry, SharedGit}

-- The version is 1.0.
abbrev pub frame_header : MessageId → ℕ → PacketHeader
frame_header id size = record {
  magic = protocol_magic;
  protocol_version = 256;
  message_id = message_code id;
  payload_size = size;
}

-- A packet without a payload, in a buffer of the header's size.
unfoldable pub bare_frame : MessageId → Option (List ℕ)
bare_frame id = do
  let tx_buf = replicate packet_header_size 0
  (ret, out) ← serialize_header (some (frame_header id 0)) (some tx_buf) packet_header_size
  some (get_or out tx_buf)

-- A packet whose payload a serialiser writes behind the header.
unfoldable pub frame :
    MessageId → ℕ → (Option (List ℕ) → ℕ → Option (ℤ × Option (List ℕ))) → Option (List ℕ)
frame id size write = do
  let tx_buf = replicate (packet_header_size + size) 0
  (ret, head) ← serialize_header (some (frame_header id size)) (some tx_buf) packet_header_size
  let tx_buf' = get_or head tx_buf
  (ret', payload) ← write (some (drop packet_header_size tx_buf')) size
  some (take packet_header_size tx_buf' ++ get_or payload (drop packet_header_size tx_buf'))

unfoldable pub control_frame : ℕ → Option (List ℕ)
unfolding frame
control_frame command =
    frame MessageId.control control_size
      (serialize_control (some (record { command_id = command })))

abbrev pub stats_payload : SystemMetrics → SystemStatsPayload
stats_payload m = record {
  cpu_usage = m.cpu_usage;
  ram_usage = m.ram_usage;
  cpu_temp = m.cpu_temp;
  ram_total = m.ram_total;
  ram_free = m.ram_free;
}

unfoldable pub stats_frame : SystemMetrics → Option (List ℕ)
unfolding frame
stats_frame m =
    frame MessageId.system_stats system_stats_size (serialize_system_stats (some (stats_payload m)))

-- `memset` and `strncpy` of at most 31 characters.
abbrev pub git_payload : GitMetrics → GitStatusPayload
git_payload m = record {
  modified_files = m.modified_files;
  untracked_files = m.untracked_files;
  branch_name = nul_padded 31 m.branch_name;
}

unfoldable pub git_frame : GitMetrics → Option (List ℕ)
unfolding frame
git_frame m =
    frame MessageId.git_status git_status_size (serialize_git_status (some (git_payload m)))

-- `memset` of the whole record and `strncpy` of at most 23, 51 and 51 characters.
abbrev pub notification_payload : NotificationMetrics → NotificationPayload
notification_payload m = record {
  app_name = nul_padded 23 m.app_name;
  summary = nul_padded 51 m.summary;
  body = nul_padded 51 m.body;
}

unfoldable pub notification_frame : NotificationMetrics → Option (List ℕ)
unfolding frame
notification_frame m =
    frame MessageId.notification notification_size
      (serialize_notification (some (notification_payload m)))

-- The conversions to `int` and `long long`.
abbrev pub to_int : ℕ → ℤ
to_int n = if ltb (n % 2 ^ 32) (2 ^ 31) then pos (n % 2 ^ 32) else negsuc (2 ^ 32 - n % 2 ^ 32 - 1)

abbrev pub to_long : ℕ → ℤ
to_long n = if ltb (n % 2 ^ 64) (2 ^ 63) then pos (n % 2 ^ 64) else negsuc (2 ^ 64 - n % 2 ^ 64 - 1)

-- What the dashboard is told.
unfoldable pub shared_telemetry : SystemMetrics → SharedTelemetry
shared_telemetry m = record {
  cpu_usage = to_int m.cpu_usage;
  ram_usage = to_int m.ram_usage;
  cpu_temp = to_int m.cpu_temp;
  ram_total = to_long m.ram_total;
  ram_free = to_long m.ram_free;
}

unfoldable pub shared_git : GitMetrics → SharedGit
shared_git m = record {
  branch = m.branch_name;
  modified = to_int m.modified_files;
  untracked = to_int m.untracked_files;
}
