-- ===== src/Packet/Laws.antt =====
-- Serialising and deserialising a packet header (shared/protocol/src/packet.c).
use psp_dev_link.Base.{
  ℕ, ◌≤◌, ◌≡◌, List, ◌++◌, Option, some, ℤ, pos, negsuc, length, drop, ◌==◌, ◌>>=◌, if◌then◌else◌,
  ltb-eq-false, ==_iff, store_all-overwrite, arith, ap, ◌∙◌,
}
use psp_dev_link.Wire.{bytes16, bytes32, IsBytes, read16, read32}
use psp_dev_link.Wire.Laws.{Field, or16-byte_at, or32-byte_at, read16-Field, read32-Field}
use psp_dev_link.Packet.{
  protocol_magic, packet_header_size, PacketHeader, header_bytes, serialize_header,
  deserialize_header, IsHeader,
}

-- On a buffer that holds `size` bytes, at least twelve, the header's bytes replace the first twelve
-- bytes of the buffer, the other bytes stay, and 0 is returned.
pub serialize_header_lem :
    (h : PacketHeader) (buf : List ℕ) (size : ℕ)
    → packet_header_size ≤ size
    → size ≤ length buf
    → serialize_header (some h) (some buf) size ≡ some (pos 0, some (header_bytes h ++ drop 12 buf))
unfolding serialize_header
serialize_header_lem h buf size enough there = rw (
  ltb-eq-false size packet_header_size enough,
  store_all-overwrite 0 (header_bytes h) buf (omega arith),
)

pub deserialize-header_bytes :
    (h g : PacketHeader) (rest : List ℕ) (size : ℕ)
    → IsHeader h
    → h.magic ≡ protocol_magic
    → packet_header_size ≤ size
    → deserialize_header (some (header_bytes h ++ rest)) size (some g) ≡ some (pos 0, some h)
unfolding deserialize_header
deserialize-header_bytes h g rest size ok magic enough = rw (
  ltb-eq-false size packet_header_size enough,
  or16-byte_at h.magic ok.magic_fits,
  or16-byte_at h.protocol_version ok.version_fits,
  or32-byte_at h.message_id ok.id_fits,
  or32-byte_at h.payload_size ok.size_fits,
  (==_iff h.magic protocol_magic).1 magic,
)

-- What a call on twelve or more bytes gives back.
pub record Decodes (buf : List ℕ) (result : Option (ℤ × Option PacketHeader)) : Type 0 where
  pub header : PacketHeader
  pub returns :
      result ≡ some ((if header.magic == protocol_magic then pos 0 else negsuc 1), some header)
  pub in_range : IsHeader header
  pub wire : buf ≡ header_bytes header ++ drop 12 buf

module _ (buf : List ℕ) (size : ℕ) (g : PacketHeader) (bytes : IsBytes buf)
    (enough : packet_header_size ≤ size) (there : size ≤ length buf) where
  magic-Field : Field 16 bytes16 2 0 buf (read16 0 buf)
  magic-Field = read16-Field buf bytes 0 (omega arith)

  version-Field : Field 16 bytes16 2 2 buf (read16 2 buf)
  version-Field = read16-Field buf bytes 2 (omega arith)

  id-Field : Field 32 bytes32 4 4 buf (read32 4 buf)
  id-Field = read32-Field buf bytes 4 (omega arith)

  size-Field : Field 32 bytes32 4 8 buf (read32 8 buf)
  size-Field = read32-Field buf bytes 8 (omega arith)

  -- On a buffer of bytes of which `size`, at least twelve, are there, the call never leaves the
  -- buffer: it stores a header whose fields fit their types and whose twelve bytes are the first
  -- of the buffer, and returns 0 if the magic number is right and -2 if not.
  pub deserialize_header-Decodes : Decodes buf (deserialize_header (some buf) size (some g))
  unfolding deserialize_header
  deserialize_header-Decodes = record {
    header = record {
      magic = magic-Field.value;
      protocol_version = version-Field.value;
      message_id = id-Field.value;
      payload_size = size-Field.value;
    };
    returns = rw (
      ltb-eq-false size packet_header_size enough,
      magic-Field.returns,
      version-Field.returns,
      id-Field.returns,
      size-Field.returns,
    );
    in_range = record {
      magic_fits = magic-Field.fits;
      version_fits = version-Field.fits;
      id_fits = id-Field.fits;
      size_fits = size-Field.fits;
    };
    wire =
        magic-Field.there
        ∙ ap (λ l. bytes16 magic-Field.value ++ l)
            (version-Field.there
              ∙ ap (λ l. bytes16 version-Field.value ++ l)
                  (id-Field.there ∙ ap (λ l. bytes32 id-Field.value ++ l) size-Field.there));
  }

-- A header that fits its types and carries the magic number comes back unchanged: with at least
-- twelve bytes on both sides, deserialising what was serialised returns 0 and the same header,
-- whatever the buffer and the out-parameter held before.
pub serialize-deserialize :
    (h g : PacketHeader) (buf : List ℕ) (size : ℕ)
    → IsHeader h
    → h.magic ≡ protocol_magic
    → packet_header_size ≤ size
    → size ≤ length buf
    → (serialize_header (some h) (some buf) size >>= λ r. deserialize_header r.1 size (some g))
      ≡ some (pos 0, some h)
serialize-deserialize h g buf size ok magic enough there =
    rw (serialize_header_lem h buf size enough there)
      (deserialize-header_bytes h g (drop 12 buf) size ok magic enough)
