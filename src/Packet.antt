-- ===== src/Packet.antt =====
-- shared/protocol: the packet header of include/protocol/packet.h and its two functions in
-- src/packet.c.
--
-- `pspl_serialize_header` and `pspl_deserialize_header` take a pointer that may be NULL as an
-- `Option`, give back the result code with the object that the out-pointer leads to, and are
-- `none` where an access leaves the buffer.
pub mod Laws
mod Tests
use psp_dev_link.Base.{
  ℕ, ◌<◌, ◌^◌, List, ◌++◌, Option, none, some, ℤ, pos, negsuc, ◌>>=◌, store_all, ltb, ◌==◌,
  if◌then◌else◌,
}
use psp_dev_link.Wire.{bytes16, bytes32, read16, read32}

abbrev pub protocol_magic : ℕ
protocol_magic = 0x5053

abbrev pub packet_header_size : ℕ
packet_header_size = 12

-- The message identifiers of the enumeration; a header can hold any other 32-bit value too.
pub data MessageId : Type 0 where
  invalid hello heartbeat system_stats git_status notification control : MessageId

abbrev pub message_code : MessageId → ℕ
message_code MessageId.invalid = 0
message_code MessageId.hello = 1
message_code MessageId.heartbeat = 2
message_code MessageId.system_stats = 3
message_code MessageId.git_status = 4
message_code MessageId.notification = 5
message_code MessageId.control = 6

pub record PacketHeader : Type 0 where
  pub magic : ℕ
  pub protocol_version : ℕ
  pub message_id : ℕ
  pub payload_size : ℕ

-- The twelve bytes that are stored, in the order of their addresses.
abbrev pub header_bytes : PacketHeader → List ℕ
header_bytes h =
    bytes16 h.magic
    ++ (bytes16 h.protocol_version ++ (bytes32 h.message_id ++ bytes32 h.payload_size))

unfoldable pub serialize_header :
    Option PacketHeader → Option (List ℕ) → ℕ → Option (ℤ × Option (List ℕ))
unfolding store_all
serialize_header (some header) (some buffer) size =
    if ltb size packet_header_size
    then some (negsuc 0, some buffer)
    else (store_all 0 (header_bytes header) buffer >>= λ out. some (pos 0, some out))
serialize_header _ buffer size = some (negsuc 0, buffer)

-- The fields are written before the magic number is looked at.
unfoldable pub deserialize_header :
    Option (List ℕ) → ℕ → Option PacketHeader → Option (ℤ × Option PacketHeader)
unfolding read16 read32
deserialize_header (some buffer) size (some header) =
    if ltb size packet_header_size then some (negsuc 0, some header) else (do
      magic ← read16 0 buffer
      version ← read16 2 buffer
      id ← read32 4 buffer
      payload ← read32 8 buffer
      let out : PacketHeader = record {
        magic = magic;
        protocol_version = version;
        message_id = id;
        payload_size = payload;
      }
      some ((if magic == protocol_magic then pos 0 else negsuc 1), some out))
deserialize_header _ size header = some (negsuc 0, header)

-- Each field fits its C type.
pub record IsHeader (h : PacketHeader) : Type 0 where
  pub magic_fits : h.magic < 2 ^ 16
  pub version_fits : h.protocol_version < 2 ^ 16
  pub id_fits : h.message_id < 2 ^ 32
  pub size_fits : h.payload_size < 2 ^ 32
