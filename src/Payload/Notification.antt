-- ===== src/Payload/Notification.antt =====
-- The notification payload of shared/protocol/src/payload.c.
pub mod Laws
use psp_dev_link.Base.{
  ℕ, ◌≡◌, List, ◌++◌, Option, none, some, ℤ, pos, negsuc, ◌>>=◌, memset, ltb, length, if◌then◌else◌,
}
use psp_dev_link.Payload.Chars.{copy_until_nul, read_chars, nul_padded, IsTerminated}

abbrev pub notification_size : ℕ
notification_size = 128

-- A `char[24]` and two `char[52]`.
pub record NotificationPayload : Type 0 where
  pub app_name : List ℕ
  pub summary : List ℕ
  pub body : List ℕ

unfoldable pub serialize_notification :
    Option NotificationPayload → Option (List ℕ) → ℕ → Option (ℤ × Option (List ℕ))
unfolding memset copy_until_nul
serialize_notification (some notif) (some buffer) size =
    if ltb size notification_size then some (negsuc 0, some buffer) else (do
      clear ← memset 128 0 0 buffer
      named ← copy_until_nul 23 0 0 notif.app_name clear
      titled ← copy_until_nul 51 0 24 notif.summary named
      out ← copy_until_nul 51 0 76 notif.body titled
      some (pos 0, some out))
serialize_notification _ buffer size = some (negsuc 0, buffer)

unfoldable pub deserialize_notification :
    Option (List ℕ) → ℕ → Option NotificationPayload → Option (ℤ × Option NotificationPayload)
unfolding read_chars
deserialize_notification (some buffer) size (some notif) =
    if ltb size notification_size then some (negsuc 0, some notif) else (do
      name ← read_chars 24 0 buffer notif.app_name
      title ← read_chars 52 24 buffer notif.summary
      text ← read_chars 52 76 buffer notif.body
      let out : NotificationPayload = record { app_name = name; summary = title; body = text }
      some (pos 0, some out))
deserialize_notification _ size notif = some (negsuc 0, notif)

-- The arrays have the lengths that the type declares.
pub record IsNotification (n : NotificationPayload) : Type 0 where
  pub name_length : length n.app_name ≡ 24
  pub summary_length : length n.summary ≡ 52
  pub body_length : length n.body ≡ 52

-- Each text ends inside its array.
pub record HasTexts (n : NotificationPayload) : Type 0 where
  pub name_ends : IsTerminated n.app_name
  pub summary_ends : IsTerminated n.summary
  pub body_ends : IsTerminated n.body

-- The payload with each text cut to its array and everything behind the NULs cleared.
abbrev pub trim_notification : NotificationPayload → NotificationPayload
trim_notification n = record {
  app_name = nul_padded 23 n.app_name;
  summary = nul_padded 51 n.summary;
  body = nul_padded 51 n.body;
}

-- The 128 bytes on the wire.
abbrev pub notification_bytes : NotificationPayload → List ℕ
notification_bytes n = nul_padded 23 n.app_name ++ (nul_padded 51 n.summary ++ nul_padded 51 n.body)
