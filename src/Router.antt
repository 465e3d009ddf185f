-- ===== src/Router.antt =====
-- apps/psp/src/message_router.c: the globals that hold the latest data of the host, and the
-- dispatch of one packet into them. A line that the debug screen shows is an entry of `log`.
pub mod Laws
pub mod Delivery
pub mod Acceptance
mod Tests
use psp_dev_link.Base.{
  ℕ, ◌<◌, List, [], ◌∷◌, Option, none, some, ℤ, pos, negsuc, ◌>>=◌, replicate, Bool, true, false,
  ◌==◌, if◌then◌else◌,
}
use mathlib.Core.Option.{get_or}
use psp_dev_link.Packet.{PacketHeader, MessageId, message_code}
use psp_dev_link.Payload.Chars.{IsTerminated}
use psp_dev_link.Payload.SystemStats.{SystemStatsPayload, deserialize_system_stats, IsStats}
use psp_dev_link.Payload.GitStatus.{GitStatusPayload, deserialize_git_status, IsGit}
use psp_dev_link.Payload.Notification.{
  NotificationPayload, deserialize_notification, IsNotification, HasTexts,
}
use psp_dev_link.Payload.Control.{ControlPayload, deserialize_control}

-- The four messages of `pspDebugScreenPrintf`, with the result code that each shows.
pub data LogLine : Type 0 where
  stats_failed git_failed notification_failed control_failed : ℤ → LogLine

pub record Router : Type 0 where
  pub current_stats : SystemStatsPayload
  pub current_git : GitStatusPayload
  pub current_notif : NotificationPayload
  pub remote_command : ℕ
  pub new_notification_received : ℕ
  pub log : List LogLine

abbrev pub blank_notification : NotificationPayload
blank_notification = record {
  app_name = replicate 24 0;
  summary = replicate 52 0;
  body = replicate 52 0;
}

-- The globals before the program runs: C clears them.
abbrev pub initial_router : Router
initial_router = record {
  current_stats = record {
    cpu_usage = 0;
    ram_usage = 0;
    cpu_temp = 0;
    ram_total = 0;
    ram_free = 0;
  };
  current_git = record { modified_files = 0; untracked_files = 0; branch_name = replicate 32 0 };
  current_notif = blank_notification;
  remote_command = 0;
  new_notification_received = 0;
  log = [];
}

-- `ret == 0`
abbrev pub is_zero : ℤ → Bool
is_zero (pos n) = n == 0
is_zero (negsuc n) = false

-- The four branches. A deserialiser writes through its out-pointer into the global.
unfoldable pub dispatch_stats : ℕ → List ℕ → Router → Option (ℤ × Router)
dispatch_stats size buf r = do
  (ret, out) ← deserialize_system_stats (some buf) size (some r.current_stats)
  let r' : Router = record r { current_stats = get_or out r.current_stats }
  if is_zero ret
      then some (pos 0, r')
      else some (negsuc 1, record r' { log = LogLine.stats_failed ret ∷ r.log })

unfoldable pub dispatch_git : ℕ → List ℕ → Router → Option (ℤ × Router)
dispatch_git size buf r = do
  (ret, out) ← deserialize_git_status (some buf) size (some r.current_git)
  let r' : Router = record r { current_git = get_or out r.current_git }
  if is_zero ret
      then some (pos 0, r')
      else some (negsuc 2, record r' { log = LogLine.git_failed ret ∷ r.log })

unfoldable pub dispatch_notification : ℕ → List ℕ → Router → Option (ℤ × Router)
dispatch_notification size buf r = do
  (ret, out) ← deserialize_notification (some buf) size (some r.current_notif)
  let r' : Router = record r { current_notif = get_or out r.current_notif }
  if is_zero ret
      then some (pos 0, record r' { new_notification_received = 1 })
      else some (negsuc 3, record r' { log = LogLine.notification_failed ret ∷ r.log })

-- `ctrl` is a local that nothing has set before the call.
unfoldable pub dispatch_control : ℕ → List ℕ → Router → Option (ℤ × Router)
dispatch_control size buf r = do
  let ctrl : ControlPayload = record { command_id = 0 }
  (ret, out) ← deserialize_control (some buf) size (some ctrl)
  if is_zero ret
      then some (pos 0, record r { remote_command = (get_or out ctrl).command_id })
      else some (negsuc 4, record r { log = LogLine.control_failed ret ∷ r.log })

unfoldable pub router_dispatch :
    Option PacketHeader → Option (List ℕ) → Router → Option (ℤ × Router)
router_dispatch (some header) (some payload_buf) r =
    if header.message_id == message_code MessageId.system_stats
    then dispatch_stats header.payload_size payload_buf r
    else if header.message_id == message_code MessageId.git_status
    then dispatch_git header.payload_size payload_buf r
    else if header.message_id == message_code MessageId.notification
    then dispatch_notification header.payload_size payload_buf r
    else if header.message_id == message_code MessageId.control
    then dispatch_control header.payload_size payload_buf r
    else some (pos 0, r)
router_dispatch _ _ r = some (negsuc 0, r)

-- The globals hold values of their types, and their texts end inside their arrays.
pub record IsRouter (r : Router) : Type 0 where
  pub stats_valid : IsStats r.current_stats
  pub git_valid : IsGit r.current_git
  pub notif_valid : IsNotification r.current_notif
  pub git_name_ends : IsTerminated r.current_git.branch_name
  pub notif_texts : HasTexts r.current_notif
  pub command_fits : r.remote_command < 256
