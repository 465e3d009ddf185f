-- ===== src/Payload/Tests.antt =====
-- The theorems on shared/protocol/src/payload.c, applied to concrete payloads.
use psp_dev_link.Base.{◌≡◌, ◌++◌, drop, some, pos, ℕ, zero, suc, ◌<◌, refl, ◌∷◌, replicate, arith}
use psp_dev_link.Wire.{IsBytes}
use psp_dev_link.Payload.SystemStats.{SystemStatsPayload}
use psp_dev_link.Payload.GitStatus.{GitStatusPayload, IsGit}
use psp_dev_link.Payload.Notification.{NotificationPayload, IsNotification}
use psp_dev_link.Payload.Calls.{
  Exchange, RoundTrips, payload_round_trip, serialize, wire_bytes, serialize-wire_bytes, Slot,
  Decodes, deserialize-Decodes,
}

replicate-IsBytes : (n v : ℕ) → v < 256 → IsBytes (replicate n v)
replicate-IsBytes zero v h = tt
replicate-IsBytes (suc n) v h = (h, replicate-IsBytes n v h)

abbrev load : SystemStatsPayload
load = record {
  cpu_usage = 37;
  ram_usage = 81;
  cpu_temp = 655;
  ram_total = 8000000000;
  ram_free = 1234567890;
}

abbrev on_main : GitStatusPayload
on_main = record {
  modified_files = 3;
  untracked_files = 1;
  branch_name = b'm' ∷ b'a' ∷ b'i' ∷ b'n' ∷ replicate 28 0;
}

-- A branch name that fills its array, with no NUL.
abbrev unending : GitStatusPayload
unending = record { modified_files = 0; untracked_files = 0; branch_name = replicate 32 b'x' }

on_main_valid : IsGit on_main
on_main_valid = record {
  modified_fits = omega arith;
  untracked_fits = omega arith;
  name_length = refl;
}

abbrev mail : NotificationPayload
mail = record {
  app_name = b'm' ∷ b'a' ∷ b'i' ∷ b'l' ∷ replicate 20 0;
  summary = b'h' ∷ b'i' ∷ replicate 50 0;
  body = replicate 52 b'x';
}

mail_valid : IsNotification mail
mail_valid = record { name_length = refl; summary_length = refl; body_length = refl }

payload_round_trip_example : RoundTrips (Exchange.git_exchange on_main unending) (replicate 40 9) 40
payload_round_trip_example =
    payload_round_trip (Exchange.git_exchange on_main unending) (replicate 40 9) 40
      (on_main_valid, refl) (omega arith) (omega arith)

serialize-wire_bytes_example :
    serialize (Exchange.notification_exchange mail mail) (replicate 130 9) 128
    ≡ some (
      pos 0,
      some (wire_bytes (Exchange.notification_exchange mail mail) ++ drop 128 (replicate 130 9)),
    )
serialize-wire_bytes_example =
    serialize-wire_bytes (Exchange.notification_exchange mail mail) (replicate 130 9) 128 mail_valid
      (omega arith) (omega arith)

deserialize-Decodes_example : Decodes (Slot.notification_slot mail) (replicate 128 b'y') 128
deserialize-Decodes_example =
    deserialize-Decodes (Slot.notification_slot mail) (replicate 128 b'y') 128 mail_valid
      (replicate-IsBytes 128 b'y' (omega arith)) (omega arith) (omega arith)
