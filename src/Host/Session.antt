-- ===== src/Host/Session.antt =====
-- The host of apps/desktop/src/main.cpp and the console of apps/psp/src/main.c on one connection.
pub mod Handshake
pub mod Repeated
use psp_dev_link.Base.{
  ℕ, zero, suc, ◌+◌, ◌-◌, ◌≤◌, ◌<◌, ◌^◌, ◌≡◌, refl, sym, ap, ◌∙◌, List, [], ◌++◌, Option, none,
  some, pos, length, drop, replicate, Bool, true, false, ltb, leb, ◌==◌, ◌&&◌, if◌then◌else◌,
  overwrite, store_all, store_all-overwrite, arith, lt→ltb, ltb-eq-false,
}
use psp_dev_link.Wire.Laws.{or32-byte_at}
use psp_dev_link.Packet.{
  PacketHeader, MessageId, message_code, header_bytes, packet_header_size, IsHeader,
}
use psp_dev_link.Packet.Laws.{deserialize-header_bytes}
use psp_dev_link.Payload.Chars.{nul_padded}
use psp_dev_link.Router.Delivery.{
  Message, IsMessage, message_bytes, kind, wire_size, deliver, router_dispatch-deliver,
}
use psp_dev_link.Transport.{TransportResult, Received}
use psp_dev_link.App.{
  App, receive_packet, read_packet, finish_packet, handle_packet, answer_hello, hello_reply,
}
use psp_dev_link.App
use psp_dev_link.App.State.{IsApp}
use psp_dev_link.App.Payload.{Link, Fetch, fetched, fetch_payload}
use psp_dev_link.Host.Frames.{frame_header}
use psp_dev_link.Host.Frames.Laws.{length-message_bytes}

-- A receive that gives all of some bytes.
abbrev pub whole : List ℕ → Received
whole bytes = record { result = TransportResult.ok; stored = bytes; out_size = some (length bytes) }

abbrev blank : PacketHeader
blank = record { magic = 0; protocol_version = 0; message_id = 0; payload_size = 0 }

frame_header-IsHeader :
    (id : MessageId) (size : ℕ) → size < 2 ^ 32 → IsHeader (frame_header id size)
frame_header-IsHeader id size small = record {
  magic_fits = omega arith;
  version_fits = omega arith;
  id_fits = code id;
  size_fits = small;
}
  where
    code : (id : MessageId) → message_code id < 2 ^ 32
    code MessageId.invalid = omega arith
    code MessageId.hello = omega arith
    code MessageId.heartbeat = omega arith
    code MessageId.system_stats = omega arith
    code MessageId.git_status = omega arith
    code MessageId.notification = omega arith
    code MessageId.control = omega arith

leb_le : (a b : ℕ) → a ≤ b → leb a b ≡ true
leb_le a b le = ground (arith, le)

size_bound : (m : Message) → (wire_size m < 2 ^ 32) × (0 < wire_size m) × (wire_size m ≤ 512)
size_bound (Message.stats s) = (omega arith, omega arith, omega arith)
size_bound (Message.git g) = (omega arith, omega arith, omega arith)
size_bound (Message.notification n) = (omega arith, omega arith, omega arith)
size_bound (Message.control c) = (omega arith, omega arith, omega arith)

module _ {P : Type 0} (psp : Link P) where
  -- A payload that arrives at once is fetched in one round.
  fetch_payload-whole :
      (size : ℕ) (bytes buf : List ℕ) (p p' : P)
      → length bytes ≡ size
      → 0 < size
      → size ≤ length buf
      → psp.receive size p ≡ some (whole bytes, p')
      → fetch_payload psp (size + 101) size 0 0 buf p
        ≡ some (fetched true size (overwrite 0 bytes buf) p')
  unfolding fetch_payload
  fetch_payload-whole size bytes buf p p' long some_size room arrives =
      let fuel : size + 101 ≡ suc (suc (size + 99)) = omega arith in
      let all : size - 0 ≡ size = omega arith in
      let got : 0 + length bytes ≡ size = omega arith in
      let some_bytes : (length bytes == 0) ≡ false = ground arith in
      let done : ltb (0 + length bytes) size ≡ false = ltb-eq-false _ _ (omega arith) in
      rw (
        fuel,
        lt→ltb 0 size some_size,
        all,
        arrives,
        store_all-overwrite 0 bytes buf (omega arith),
        some_bytes,
        done,
        got,
      )

  -- A connected console that receives a frame of the host, its header and its payload at once each,
  -- makes exactly the change that the message means, keeps the payload in its buffer, and counts
  -- the silence from zero again.
  pub receive_packet-deliver :
      (m : Message) (a : App) (p p1 p2 : P)
      → IsMessage m
      → IsApp a
      → a.state ≡ App.ConnectionState.connected
      → psp.receive packet_header_size p
        ≡ some (whole (header_bytes (frame_header (kind m) (wire_size m))), p1)
      → psp.receive (wire_size m) p1 ≡ some (whole (message_bytes m), p2)
      → receive_packet psp a p
        ≡ some (
          record a {
            ticks_since_last_packet = 0;
            payload_buf = overwrite 0 (message_bytes m) a.payload_buf;
            router = deliver m a.router;
          },
          p2,
        )
  unfolding receive_packet read_packet finish_packet handle_packet
  receive_packet-deliver m a p p1 p2 valid ok up head tail =
      let hdr = frame_header (kind m) (wire_size m) in
      let stored : store_all 0 (header_bytes hdr) (replicate 12 0) ≡ some (header_bytes hdr ++ []) =
        store_all-overwrite 0 (header_bytes hdr) (replicate 12 0) (omega arith) in
      let id_fits = frame_header-IsHeader (kind m) (wire_size m) (size_bound m).0 in
      let room : length a.payload_buf ≡ 512 = ok.room in
      let (small, some_size, fits) = size_bound m in
      let fetched_all =
        fetch_payload-whole (wire_size m) (message_bytes m) a.payload_buf p1 p2
          (length-message_bytes m) some_size (omega arith) tail in
      let routed =
        router_dispatch-deliver m hdr (drop (length (message_bytes m)) a.payload_buf) a.router valid
          ok.router_valid refl (omega arith) in
      rw (
        head,
        stored,
        or32-byte_at (message_code (kind m)) id_fits.id_fits,
        or32-byte_at (wire_size m) id_fits.size_fits,
        lt→ltb 0 (wire_size m) some_size,
        leb_le (wire_size m) 512 fits,
        fetched_all,
        leb_le (wire_size m) (wire_size m) (omega arith),
        routed,
        up,
      )
