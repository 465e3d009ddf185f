-- ===== src/App/Connection.antt =====
-- The connection of apps/psp/src/main.c: the handshake and the watchdog.
use psp_dev_link.Base.{
  ℕ, zero, suc, ◌+◌, ◌≤◌, ◌<◌, ◌≡◌, some, replicate, true, false, leb, ◌==◌, ◌&&◌, if◌then◌else◌,
  Bool-cases, inl, inr, arith, pos, ◌∙◌,
}
use native.Mathlib.Decide.{dec_lt}
use psp_dev_link.Packet.{
  PacketHeader, MessageId, message_code, header_bytes, packet_header_size, serialize_header,
}
use psp_dev_link.Packet.Laws.{serialize_header_lem}
use psp_dev_link.Router.Laws.{router_dispatch-ignores}
use psp_dev_link.Transport.{TransportResult}
use psp_dev_link.App.Payload.{Link, is_ok}
use psp_dev_link.App.{
  App, ConnectionState, is_connected, watchdog, hello_reply, expected_ver, answer_hello,
  handle_packet,
}

module _ {T : Type 0} (link : Link T) (hdr : PacketHeader) (a : App) (t : T) where
  -- While the program is not connected, a HELLO of the program's own version is answered with the
  -- twelve bytes of a HELLO header, and the program is connected exactly if they could be sent. A
  -- HELLO of another version and any other packet change nothing and are not answered.
  pub handle_packet_handshake :
      (sent : TransportResult) (t' : T)
      → a.state ≡ ConnectionState.disconnected
      → link.send (header_bytes hello_reply) packet_header_size t ≡ some (sent, t')
      → handle_packet link hdr a t ≡ (
          if hdr.message_id == message_code MessageId.hello && hdr.protocol_version == expected_ver
          then some ((if is_ok sent then record a { state = ConnectionState.connected } else a), t')
          else some (a, t))
  unfolding handle_packet answer_hello
  handle_packet_handshake sent t' alone sending =
      elim (Bool-cases (hdr.message_id == message_code MessageId.hello)) [
        | inr other ↦ rw (alone, other)
        | inl hello ↦ elim (Bool-cases (hdr.protocol_version == expected_ver)) [
          | inr foreign ↦ rw (alone, hello, foreign)
          | inl same ↦ rw (alone, hello, same, reply, sending)
        ]
      ]
    where
      reply :
          serialize_header (some hello_reply) (some (replicate 12 0)) packet_header_size
          ≡ some (pos 0, some (header_bytes hello_reply))
      reply =
          serialize_header_lem hello_reply (replicate 12 0) packet_header_size (omega arith)
            (omega arith)

  -- While the program is connected, a HELLO that has been received is handled without an answer.
  pub handle_packet-hello_unanswered :
      a.state ≡ ConnectionState.connected
      → hdr.message_id ≡ message_code MessageId.hello
      → handle_packet link hdr a t ≡ some (a, t)
  unfolding handle_packet
  handle_packet-hello_unanswered together hello = rw (
    together,
    router_dispatch-ignores hdr a.payload_buf a.router (omega (arith, hello)) (omega (arith, hello))
        (omega (arith, hello)) (omega (arith, hello)),
  )

-- The watchdog of a number of iterations in which no packet arrives.
abbrev pub silent_iterations : ℕ → App → App
silent_iterations zero a = a
silent_iterations (suc k) a = silent_iterations k (watchdog a)

stays_alone :
    (k : ℕ) (a : App)
    → is_connected a.state ≡ false
    → is_connected (silent_iterations k a).state ≡ false
unfolding watchdog
stays_alone zero a alone = alone
stays_alone (suc k) a alone = stays_alone k _ (ground arith)

pub tick_alive :
    (a : App)
    → is_connected a.state ≡ true
    → a.ticks_since_last_packet < 500
    → (is_connected (watchdog a).state ≡ true)
      × ((watchdog a).ticks_since_last_packet ≡ a.ticks_since_last_packet + 1)
unfolding watchdog
tick_alive a up early = ground arith

tick_over :
    (a : App)
    → is_connected a.state ≡ true
    → 500 ≤ a.ticks_since_last_packet
    → is_connected (watchdog a).state ≡ false
unfolding watchdog
tick_over a up late = ground arith

-- A connection that has been silent for `n` iterations, at most 500, survives a further `k` silent
-- ones exactly if `n + k` is at most 500.
pub watchdog_lifetime :
    (k : ℕ) (a : App)
    → is_connected a.state ≡ true
    → a.ticks_since_last_packet ≤ 500
    → is_connected (silent_iterations k a).state ≡ leb (a.ticks_since_last_packet + k) 500
watchdog_lifetime zero a up fits = up ∙ ground (arith, fits)
watchdog_lifetime (suc k) a up fits = elim (dec_lt a.ticks_since_last_packet 500) [
  | yes early ↦
      let (up', ticks) = tick_alive a up early in
      watchdog_lifetime k (watchdog a) up' (omega arith) ∙ ground (arith, ticks)
  | no late ↦ stays_alone k (watchdog a) (tick_over a up (omega arith)) ∙ ground (arith, late)
]
