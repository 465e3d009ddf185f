-- ===== src/Packet/Tests.antt =====
-- Runs of shared/protocol/src/packet.c on concrete packets, and its theorems applied to them.
use psp_dev_link.Base.{ℕ, ◌≡◌, refl, List, [], ◌∷◌, some, pos, negsuc, ◌>>=◌, replicate, arith}
use psp_dev_link.Wire.{IsBytes}
use psp_dev_link.Packet.{PacketHeader, IsHeader, header_bytes, serialize_header, deserialize_header}
use psp_dev_link.Packet.Laws.{Decodes, serialize-deserialize, deserialize_header-Decodes}

abbrev hello : PacketHeader
hello = record { magic = 0x5053; protocol_version = 256; message_id = 1; payload_size = 0 }

abbrev stats : PacketHeader
stats = record { magic = 0x5053; protocol_version = 256; message_id = 3; payload_size = 20 }

abbrev wire : List ℕ
wire = 0x53 ∷ 0x50 ∷ 0 ∷ 1 ∷ 3 ∷ 0 ∷ 0 ∷ 0 ∷ 20 ∷ 0 ∷ 0 ∷ 0 ∷ []

wire_of_stats : header_bytes stats ≡ wire
wire_of_stats = refl

read_stats : deserialize_header (some wire) 12 (some hello) ≡ some (pos 0, some stats)
unfolding deserialize_header
read_stats = refl

foreign_magic :
    deserialize_header (some (replicate 12 0)) 12 (some hello)
    ≡ some (
      negsuc 1,
      some (record { magic = 0; protocol_version = 0; message_id = 0; payload_size = 0 }),
    )
unfolding deserialize_header
foreign_magic = refl

stats_valid : IsHeader stats
stats_valid = record {
  magic_fits = omega arith;
  version_fits = omega arith;
  id_fits = omega arith;
  size_fits = omega arith;
}

wire-IsBytes : IsBytes wire
wire-IsBytes = (
  omega arith,
  (
    omega arith,
    (
      omega arith,
      (
        omega arith,
        (
          omega arith,
          (
            omega arith,
            (
              omega arith,
              (omega arith, (omega arith, (omega arith, (omega arith, (omega arith, tt))))),
            ),
          ),
        ),
      ),
    ),
  ),
)

serialize-deserialize_example :
    (serialize_header (some stats) (some (replicate 16 7)) 12 >>= λ r.
    deserialize_header r.1 12 (some hello))
    ≡ some (pos 0, some stats)
serialize-deserialize_example =
    serialize-deserialize stats hello (replicate 16 7) 12 stats_valid refl (omega arith)
      (omega arith)

deserialize_header-Decodes_example : Decodes wire (deserialize_header (some wire) 12 (some hello))
deserialize_header-Decodes_example =
    deserialize_header-Decodes wire 12 hello wire-IsBytes (omega arith) (omega arith)
