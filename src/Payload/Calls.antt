-- ===== src/Payload/Calls.antt =====
-- The pairs of functions of shared/protocol/src/packet.c and payload.c, together: what all of them do.
use psp_dev_link.Base.{
  zero, suc, ◌+◌, refl, sym, ap, ◌∙◌, [], ◌∷◌, ◌++◌, drop, Option, ℤ, arith, ℕ, ◌≤◌, ◌≡◌, List,
  some, pos, ◌>>=◌, length,
}
use psp_dev_link.Wire.{IsBytes, bytes16, bytes32, bytes64}
use psp_dev_link.Payload.Chars.{c_string, nul_padded}
use psp_dev_link.Payload.SystemStats.{
  SystemStatsPayload, IsStats, system_stats_size, serialize_system_stats, deserialize_system_stats,
}
use psp_dev_link.Payload.SystemStats.Laws.{
  DecodesStats, stats_round_trip, serialize_system_stats_lem, deserialize_system_stats-Decodes,
}
use psp_dev_link.Payload.GitStatus.{
  GitStatusPayload, IsGit, trim_git, git_status_size, serialize_git_status, deserialize_git_status,
}
use psp_dev_link.Payload.GitStatus.Laws.{
  DecodesGit, git_round_trip, serialize_git_status_lem, deserialize_git_status-Decodes,
}
use psp_dev_link.Payload.Notification.{
  NotificationPayload, IsNotification, trim_notification, notification_size, serialize_notification,
  deserialize_notification,
}
use psp_dev_link.Payload.Notification.Laws.{
  DecodesNotification, notification_round_trip, serialize_notification_lem,
  deserialize_notification-Decodes,
}
use psp_dev_link.Payload.Control.{
  ControlPayload, control_size, serialize_control, deserialize_control,
}
use psp_dev_link.Payload.Control.Laws.{control_round_trip}

-- A payload that is written and the record that it is read into.
pub data Exchange : Type 0 where
  stats_exchange : SystemStatsPayload → SystemStatsPayload → Exchange
  git_exchange : GitStatusPayload → GitStatusPayload → Exchange
  notification_exchange : NotificationPayload → NotificationPayload → Exchange
  control_exchange : ControlPayload → ControlPayload → Exchange

abbrev pub exchange_size : Exchange → ℕ
exchange_size (Exchange.stats_exchange s old) = system_stats_size
exchange_size (Exchange.git_exchange g old) = git_status_size
exchange_size (Exchange.notification_exchange n old) = notification_size
exchange_size (Exchange.control_exchange c old) = control_size

-- The fields fit their types, and the arrays have their lengths, those read into as well.
abbrev pub IsExchange : Exchange → Type 0
IsExchange (Exchange.stats_exchange s old) = IsStats s
IsExchange (Exchange.git_exchange g old) = IsGit g × (length old.branch_name ≡ 32)
IsExchange (Exchange.notification_exchange n old) = IsNotification n × IsNotification old
IsExchange (Exchange.control_exchange c old) = Unit

abbrev pub RoundTrips : Exchange → List ℕ → ℕ → Type 0
RoundTrips (Exchange.stats_exchange s old) buf size =
    (serialize_system_stats (some s) (some buf) size >>= λ r.
    deserialize_system_stats r.1 size (some old))
    ≡ some (pos 0, some s)
RoundTrips (Exchange.git_exchange g old) buf size =
    ((serialize_git_status (some g) (some buf) size >>= λ r.
    deserialize_git_status r.1 size (some old))
      ≡ some (pos 0, some (trim_git g)))
    × (c_string 31 (trim_git g).branch_name ≡ c_string 31 g.branch_name)
RoundTrips (Exchange.notification_exchange n old) buf size =
    ((serialize_notification (some n) (some buf) size >>= λ r.
    deserialize_notification r.1 size (some old))
      ≡ some (pos 0, some (trim_notification n)))
    × (c_string 23 (trim_notification n).app_name ≡ c_string 23 n.app_name)
    × (c_string 51 (trim_notification n).summary ≡ c_string 51 n.summary)
    × (c_string 51 (trim_notification n).body ≡ c_string 51 n.body)
RoundTrips (Exchange.control_exchange c old) buf size =
    (serialize_control (some c) (some buf) size >>= λ r. deserialize_control r.1 size (some old))
    ≡ some (pos 0, some c)

-- A payload that fits its type comes back through any buffer that is large enough, into any record
-- whose arrays have their lengths: its numbers unchanged, and its texts as the same C strings, cut
-- at 31 characters for a branch, and at 23, 51 and 51 for a notification, with NULs behind them.
pub payload_round_trip :
    (e : Exchange) (buf : List ℕ) (size : ℕ)
    → IsExchange e
    → exchange_size e ≤ size
    → size ≤ length buf
    → RoundTrips e buf size
payload_round_trip (Exchange.stats_exchange s old) buf size ok enough there =
    stats_round_trip s old buf size ok enough there
payload_round_trip (Exchange.git_exchange g old) buf size (ok, fits) enough there =
    git_round_trip g old buf size ok fits enough there
payload_round_trip (Exchange.notification_exchange n old) buf size (ok, fits) enough there =
    notification_round_trip n old buf size ok fits enough there
payload_round_trip (Exchange.control_exchange c old) buf size ok enough there =
    control_round_trip c old buf size enough there

-- What the sender's record has to be for the bytes that are written to be those of its fields.
abbrev pub IsSent : Exchange → Type 0
IsSent (Exchange.stats_exchange s old) = IsStats s
IsSent (Exchange.git_exchange g old) = IsGit g
IsSent (Exchange.notification_exchange n old) = IsNotification n
IsSent (Exchange.control_exchange c old) = Unit

abbrev pub serialize : Exchange → List ℕ → ℕ → Option (ℤ × Option (List ℕ))
serialize (Exchange.stats_exchange s old) buf size = serialize_system_stats (some s) (some buf) size
serialize (Exchange.git_exchange g old) buf size = serialize_git_status (some g) (some buf) size
serialize (Exchange.notification_exchange n old) buf size =
    serialize_notification (some n) (some buf) size
serialize (Exchange.control_exchange c old) buf size = serialize_control (some c) (some buf) size

-- The layout on the wire: the fields one after another, numbers with the lowest byte first, texts
-- cut to their arrays and filled up with NULs.
abbrev pub wire_bytes : Exchange → List ℕ
wire_bytes (Exchange.stats_exchange s old) =
    s.cpu_usage ∷ s.ram_usage ∷ (bytes16 s.cpu_temp ++ (bytes64 s.ram_total ++ bytes64 s.ram_free))
wire_bytes (Exchange.git_exchange g old) =
    bytes32 g.modified_files ++ (bytes32 g.untracked_files ++ nul_padded 31 g.branch_name)
wire_bytes (Exchange.notification_exchange n old) =
    nul_padded 23 n.app_name ++ (nul_padded 51 n.summary ++ nul_padded 51 n.body)
wire_bytes (Exchange.control_exchange c old) = c.command_id ∷ []

drop-[] : (b : ℕ) → drop {A = ℕ} b [] ≡ []
drop-[] zero = refl
drop-[] (suc b) = refl

drop_field : (a b : ℕ) (s : List ℕ) → drop b (drop a s) ≡ drop (a + b) s
drop_field zero b s = let same : 0 + b ≡ b = omega arith in rw same
drop_field (suc a) b [] = drop-[] b ∙ sym (drop-[] (suc a + b))
drop_field (suc a) b (x ∷ s) =
    let next : suc a + b ≡ suc (a + b) = omega arith in rw next (drop_field a b s)

-- Whatever a buffer of the announced size holds, writing a payload into it returns 0 and stores the
-- bytes of its layout at the start of the buffer: every one of them is set, whatever stood there,
-- the bytes behind them are as before, and no array is left.
pub serialize-wire_bytes :
    (e : Exchange) (buf : List ℕ) (size : ℕ)
    → IsSent e
    → exchange_size e ≤ size
    → size ≤ length buf
    → serialize e buf size ≡ some (pos 0, some (wire_bytes e ++ drop (exchange_size e) buf))
unfolding serialize_control
serialize-wire_bytes (Exchange.stats_exchange s old) buf size ok enough there =
    serialize_system_stats_lem s buf size enough there
serialize-wire_bytes (Exchange.git_exchange g old) buf size ok enough there =
    serialize_git_status_lem g buf size ok enough there
    ∙ ap (λ rest. some (pos 0, some (wire_bytes (Exchange.git_exchange g old) ++ rest)))
        (drop_field 8 32 buf)
serialize-wire_bytes (Exchange.notification_exchange n old) buf size ok enough there =
    serialize_notification_lem n buf size ok enough there
serialize-wire_bytes (Exchange.control_exchange c old) [] size ok enough there =
    absurd (omega arith)
serialize-wire_bytes (Exchange.control_exchange c old) (x ∷ buf) size ok enough there = ground arith

-- The record that received bytes are read into.
pub data Slot : Type 0 where
  stats_slot : SystemStatsPayload → Slot
  git_slot : GitStatusPayload → Slot
  notification_slot : NotificationPayload → Slot

abbrev pub slot_size : Slot → ℕ
slot_size (Slot.stats_slot old) = system_stats_size
slot_size (Slot.git_slot old) = git_status_size
slot_size (Slot.notification_slot old) = notification_size

-- The arrays have their lengths.
abbrev pub IsSlot : Slot → Type 0
IsSlot (Slot.stats_slot old) = Unit
IsSlot (Slot.git_slot old) = length old.branch_name ≡ 32
IsSlot (Slot.notification_slot old) = IsNotification old

abbrev pub Decodes : Slot → List ℕ → ℕ → Type 0
Decodes (Slot.stats_slot old) buf size =
    DecodesStats buf (deserialize_system_stats (some buf) size (some old))
Decodes (Slot.git_slot old) buf size =
    DecodesGit buf (deserialize_git_status (some buf) size (some old))
Decodes (Slot.notification_slot old) buf size =
    DecodesNotification buf (deserialize_notification (some buf) size (some old))

-- Whatever bytes arrive, if there are as many as the payload takes and the record's arrays have
-- their lengths: reading them leaves no array and returns 0, the record then holds values of its
-- types, its numbers are those that the bytes hold in little-endian order, and its texts are the
-- characters at their places with a NUL in place of the last.
pub deserialize-Decodes :
    (s : Slot) (buf : List ℕ) (size : ℕ)
    → IsSlot s
    → IsBytes buf
    → slot_size s ≤ size
    → slot_size s ≤ length buf
    → Decodes s buf size
deserialize-Decodes (Slot.stats_slot old) buf size ok bytes enough there =
    deserialize_system_stats-Decodes buf old size bytes enough there
deserialize-Decodes (Slot.git_slot old) buf size ok bytes enough there =
    deserialize_git_status-Decodes buf old size bytes ok enough there
deserialize-Decodes (Slot.notification_slot old) buf size ok bytes enough there =
    deserialize_notification-Decodes buf old size ok enough there
