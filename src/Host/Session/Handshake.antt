-- ===== src/Host/Session/Handshake.antt =====
-- The handshake between apps/desktop/src/main.cpp and apps/psp/src/main.c.
use psp_dev_link.Base.{ℕ, ◌≤◌, ◌≡◌, refl, List, some, true, leb, store_all, arith}
use psp_dev_link.Packet.{MessageId, header_bytes, packet_header_size, deserialize_header}
use psp_dev_link.Transport.{TransportResult}
use psp_dev_link.App.{App, receive_packet, read_packet, hello_reply, handle_packet}
use psp_dev_link.App
use psp_dev_link.App.Connection.{handle_packet_handshake}
use psp_dev_link.App.Payload.{Link}
use psp_dev_link.Host.Transport.{HostReceived}
use psp_dev_link.Host.Frames.Laws.{bare_frame_lem}
use psp_dev_link.Host.Main.Link.{HostLink}
use psp_dev_link.Host.Main.{
  ConnectionState, Host, Inputs, goes_on, seconds_since, send_or_lose, complete_handshake,
}
use psp_dev_link.Host.Main.Loop.{proceed, send_hello, hear_reply, handshake}
use psp_dev_link.Host.Session.{whole}

-- The header that both sides send.
abbrev pub hello_bytes : List ℕ
hello_bytes = header_bytes hello_reply

-- What the host receives of the answer.
abbrev pub heard_hello : HostReceived
heard_hello = record { result = TransportResult.ok; received = 12; stored = hello_bytes }

module _ {P : Type 0} (psp : Link P) where
  console_answers :
      (a : App) (p p1 p2 : P)
      → a.state ≡ App.ConnectionState.disconnected
      → psp.receive packet_header_size p ≡ some (whole hello_bytes, p1)
      → psp.send hello_bytes packet_header_size p1 ≡ some (TransportResult.ok, p2)
      → receive_packet psp a p
        ≡ some (record a { ticks_since_last_packet = 0; state = App.ConnectionState.connected }, p2)
  unfolding receive_packet read_packet store_all
  console_answers a p p1 p2 alone arrives answers = rw arrives (
      handle_packet_handshake psp hello_reply (record a { ticks_since_last_packet = 0 }) p1
        TransportResult.ok p2 alone answers)

module _ {T : Type 0} (link : HostLink T) where
  host_connects :
      (i : Inputs) (h : Host) (t t1 t2 : T)
      → 1 ≤ seconds_since i.hello_time h.last_hello_time
      → link.send hello_bytes packet_header_size t ≡ (TransportResult.ok, t1)
      → link.receive packet_header_size t1 ≡ (heard_hello, t2)
      → handshake link i h t
        ≡ some
            (goes_on (complete_handshake link i (record h { last_hello_time = i.hello_time })) t2)
  unfolding handshake send_hello send_or_lose proceed hear_reply store_all deserialize_header
  host_connects i h t t1 t2 due sends hears =
      rw (ltrue, bare_frame_lem MessageId.hello, sends, hears)
    where
      ltrue : leb 1 (seconds_since i.hello_time h.last_hello_time) ≡ true
      ltrue = ground (arith, due)

module _ {T P : Type 0} (link : HostLink T) (psp : Link P) where
  -- A handshake between a host that is looking for its console and a console that is not connected
  -- comes to its end in one round of each: if at least a second has passed since the host's last
  -- HELLO, and the link carries the twelve bytes that the host sends to the console, and the twelve
  -- that the console answers with to the host, then both are connected after it.
  pub handshake-connects :
      (i : Inputs) (h : Host) (t t1 t2 : T) (a : App) (p p1 p2 : P)
      → 1 ≤ seconds_since i.hello_time h.last_hello_time
      → link.send hello_bytes packet_header_size t ≡ (TransportResult.ok, t1)
      → a.state ≡ App.ConnectionState.disconnected
      → psp.receive packet_header_size p ≡ some (whole hello_bytes, p1)
      → psp.send hello_bytes packet_header_size p1 ≡ some (TransportResult.ok, p2)
      → link.receive packet_header_size t1 ≡ (heard_hello, t2)
      → (receive_packet psp a p
          ≡ some
              (record a { ticks_since_last_packet = 0; state = App.ConnectionState.connected }, p2))
        × ((h' : Host) × (handshake link i h t ≡ some (goes_on h' t2))
            × (h'.state ≡ ConnectionState.connected))
  unfolding complete_handshake
  handshake-connects i h t t1 t2 a p p1 p2 due sends alone arrives answers hears = (
    console_answers psp a p p1 p2 alone arrives answers,
    (
      complete_handshake link i (record h { last_hello_time = i.hello_time }),
      host_connects link i h t t1 t2 due sends hears,
      refl,
    ),
  )
