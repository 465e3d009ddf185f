-- ===== src/Wire.antt =====
-- Little-endian integers in a byte buffer, as shared/protocol/src/packet.c and
-- shared/protocol/src/payload.c write them out, byte by byte.
pub mod Laws
use psp_dev_link.Base.{ℕ, ◌+◌, ◌<◌, List, [], ◌∷◌, Option, none, some, ◌>>=◌, load, length}
use psp_dev_link.Base.Bits.{byte_at, ◌<<<◌, ◌∣∣◌}

abbrev pub bytes16 : ℕ → List ℕ
bytes16 v = byte_at v 0 ∷ byte_at v 8 ∷ []

abbrev pub bytes32 : ℕ → List ℕ
bytes32 v = byte_at v 0 ∷ byte_at v 8 ∷ byte_at v 16 ∷ byte_at v 24 ∷ []

abbrev pub bytes64 : ℕ → List ℕ
bytes64 v =
    byte_at v 0
    ∷ byte_at v 8
    ∷ byte_at v 16
    ∷ byte_at v 24
    ∷ byte_at v 32
    ∷ byte_at v 40
    ∷ byte_at v 48
    ∷ byte_at v 56
    ∷ []

-- The integer of a field at `off`, each byte loaded in turn.
unfoldable pub read16 : ℕ → List ℕ → Option ℕ
read16 off buf = do b0 ← load buf off; b1 ← load buf (off + 1); some (b0 ∣∣ b1 <<< 8)

unfoldable pub read32 : ℕ → List ℕ → Option ℕ
read32 off buf = do
  b0 ← load buf off
  b1 ← load buf (off + 1)
  b2 ← load buf (off + 2)
  b3 ← load buf (off + 3)
  some (b0 ∣∣ b1 <<< 8 ∣∣ b2 <<< 16 ∣∣ b3 <<< 24)

unfoldable pub read64 : ℕ → List ℕ → Option ℕ
read64 off buf = do
  b0 ← load buf off
  b1 ← load buf (off + 1)
  b2 ← load buf (off + 2)
  b3 ← load buf (off + 3)
  b4 ← load buf (off + 4)
  b5 ← load buf (off + 5)
  b6 ← load buf (off + 6)
  b7 ← load buf (off + 7)
  some
      (b0 ∣∣ b1 <<< 8 ∣∣ b2 <<< 16 ∣∣ b3 <<< 24 ∣∣ b4 <<< 32 ∣∣ b5 <<< 40 ∣∣ b6 <<< 48 ∣∣ b7 <<< 56)

-- Every element is a byte.
abbrev pub IsBytes : List ℕ → Type 0
IsBytes [] = Unit
IsBytes (b ∷ buf) = (b < 256) × IsBytes buf
