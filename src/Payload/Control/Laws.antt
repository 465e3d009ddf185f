-- ===== src/Payload/Control/Laws.antt =====
-- Writing and reading the control payload (shared/protocol/src/payload.c).
use psp_dev_link.Base.{ℕ, ◌≤◌, ◌≡◌, List, [], ◌∷◌, some, pos, ◌>>=◌, length, arith}
use psp_dev_link.Payload.Control.{
  control_size, ControlPayload, serialize_control, deserialize_control,
}

-- A command comes back unchanged through a buffer of at least one byte.
pub control_round_trip :
    (c g : ControlPayload) (buf : List ℕ) (size : ℕ)
    → control_size ≤ size
    → size ≤ length buf
    → (serialize_control (some c) (some buf) size >>= λ r. deserialize_control r.1 size (some g))
      ≡ some (pos 0, some c)
unfolding serialize_control deserialize_control
control_round_trip c g [] size enough there = absurd (omega arith)
control_round_trip c g (x ∷ buf) size enough there = ground arith
