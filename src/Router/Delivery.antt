-- ===== src/Router/Delivery.antt =====
-- The messages that apps/psp/src/message_router.c receives, as shared/protocol/src/payload.c puts
-- them on the wire, and what each is meant to change.
use psp_dev_link.Base.{ℕ, ◌≤◌, ◌≡◌, List, ◌∷◌, ◌++◌, some, pos, ltb-eq-false}
use psp_dev_link.Packet.{PacketHeader, MessageId, message_code}
use psp_dev_link.Payload.SystemStats.{SystemStatsPayload, system_stats_size, stats_bytes, IsStats}
use psp_dev_link.Payload.SystemStats.Laws.{deserialize-stats_bytes}
use psp_dev_link.Payload.GitStatus.{GitStatusPayload, git_status_size, git_bytes, trim_git, IsGit}
use psp_dev_link.Payload.GitStatus.Laws.{deserialize-git_bytes}
use psp_dev_link.Payload.Notification.{
  NotificationPayload, notification_size, notification_bytes, trim_notification, IsNotification,
}
use psp_dev_link.Payload.Notification.Laws.{deserialize-notification_bytes}
use psp_dev_link.Payload.Control.{ControlPayload, control_size, deserialize_control}
use psp_dev_link.Router.{
  Router, IsRouter, dispatch_stats, dispatch_git, dispatch_notification, dispatch_control,
  router_dispatch,
}

-- The payloads that the host sends, each with the bytes that `pspl_serialize_*` makes of it.
pub data Message : Type 0 where
  stats : SystemStatsPayload → Message
  git : GitStatusPayload → Message
  notification : NotificationPayload → Message
  control : ControlPayload → Message

abbrev pub IsMessage : Message → Type 0
IsMessage (Message.stats s) = IsStats s
IsMessage (Message.git g) = IsGit g
IsMessage (Message.notification n) = IsNotification n
IsMessage (Message.control c) = Unit

abbrev pub message_bytes : Message → List ℕ
message_bytes (Message.stats s) = stats_bytes s
message_bytes (Message.git g) = git_bytes g
message_bytes (Message.notification n) = notification_bytes n
message_bytes (Message.control c) = c.command_id ∷ List.[]

abbrev pub kind : Message → MessageId
kind (Message.stats s) = MessageId.system_stats
kind (Message.git g) = MessageId.git_status
kind (Message.notification n) = MessageId.notification
kind (Message.control c) = MessageId.control

abbrev pub wire_size : Message → ℕ
wire_size (Message.stats s) = system_stats_size
wire_size (Message.git g) = git_status_size
wire_size (Message.notification n) = notification_size
wire_size (Message.control c) = control_size

-- What one message is meant to change.
abbrev pub deliver : Message → Router → Router
deliver (Message.stats s) r = record r { current_stats = s }
deliver (Message.git g) r = record r { current_git = trim_git g }
deliver (Message.notification n) r = record r {
  current_notif = trim_notification n;
  new_notification_received = 1;
}
deliver (Message.control c) r = record r { remote_command = c.command_id }

-- On valid globals, a packet that carries a valid message, with a header of the message's
-- identifier and at least its size, returns 0 and makes exactly the change that the message means:
-- the dispatch of the bytes implements `deliver`.
pub router_dispatch-deliver :
    (m : Message) (header : PacketHeader) (rest : List ℕ) (r : Router)
    → IsMessage m
    → IsRouter r
    → header.message_id ≡ message_code (kind m)
    → wire_size m ≤ header.payload_size
    → router_dispatch (some header) (some (message_bytes m ++ rest)) r ≡ some (pos 0, deliver m r)
unfolding router_dispatch dispatch_stats dispatch_git dispatch_notification dispatch_control
    deserialize_control
router_dispatch-deliver (Message.stats s) header rest r valid ok id size =
    rw (id, deserialize-stats_bytes s r.current_stats rest header.payload_size valid size)
router_dispatch-deliver (Message.git g) header rest r valid ok id size = rw (
  id,
  deserialize-git_bytes g r.current_git rest header.payload_size valid ok.git_valid.name_length
      size,
)
router_dispatch-deliver (Message.notification n) header rest r valid ok id size = rw (
  id,
  deserialize-notification_bytes n r.current_notif rest header.payload_size valid ok.notif_valid
      size,
)
router_dispatch-deliver (Message.control c) header rest r valid ok id size =
    rw (id, ltb-eq-false header.payload_size control_size size)
