-- ===== src/Payload/Control.antt =====
-- The one-byte control payload of shared/protocol/src/payload.c.
pub mod Laws
use psp_dev_link.Base.{
  ℕ, List, Option, none, some, ℤ, pos, negsuc, ◌>>=◌, load, store, ltb, if◌then◌else◌,
}

abbrev pub control_size : ℕ
control_size = 1

pub record ControlPayload : Type 0 where
  pub command_id : ℕ

unfoldable pub serialize_control :
    Option ControlPayload → Option (List ℕ) → ℕ → Option (ℤ × Option (List ℕ))
serialize_control (some ctrl) (some buffer) size =
    if ltb size control_size
    then some (negsuc 0, some buffer)
    else (store buffer 0 ctrl.command_id >>= λ out. some (pos 0, some out))
serialize_control _ buffer size = some (negsuc 0, buffer)

unfoldable pub deserialize_control :
    Option (List ℕ) → ℕ → Option ControlPayload → Option (ℤ × Option ControlPayload)
deserialize_control (some buffer) size (some ctrl) =
    if ltb size control_size
    then some (negsuc 0, some ctrl)
    else (load buffer 0 >>= λ c. some (pos 0, some (record { command_id = c })))
deserialize_control _ size ctrl = some (negsuc 0, ctrl)
