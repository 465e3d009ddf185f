-- ===== src/App/Packets.antt =====
-- Receiving and handling a packet in apps/psp/src/main.c.
use psp_dev_link.Base.{
  ℕ, ◌+◌, ◌≤◌, ◌≡◌, refl, List, Option, some, length, replicate, false, not, ltb, leb, ◌==◌, ◌&&◌,
  if◌then◌else◌, if_intro, Bool-cases, inl, inr, overwrite, store_all-overwrite, length-overwrite,
  arith, ◌∙◌,
}
use psp_dev_link.Wire.{IsBytes}
use psp_dev_link.Wire.Laws.{IsBytes-overwrite}
use psp_dev_link.Packet.{
  PacketHeader, MessageId, message_code, header_bytes, packet_header_size, protocol_magic,
}
use psp_dev_link.Packet.Laws.{serialize_header_lem, deserialize_header-Decodes}
use psp_dev_link.Router.Laws.{router_dispatch-IsRouter}
use psp_dev_link.Transport.{TransportResult}
use psp_dev_link.App.Payload.{Link, chunk_of, is_ok, payload_capacity}
use psp_dev_link.App.Payload.Laws.{SoundLink, fetch_payload_ends, chunk_bounded}
use psp_dev_link.App.{
  App, ConnectionState, is_connected, on_error, hello_reply, expected_ver, answer_hello,
  handle_packet, finish_packet, read_packet, receive_packet,
}
use psp_dev_link.App.State.{IsApp, replicate_zero-IsBytes}

-- What dealing with a packet gives: a valid state and link, and, if the program was not connected,
-- the globals of the router as they were.
pub record Handles {T : Type 0} (Valid : T → Type 0) (a : App) (result : Option (App × T))
    : Type 0 where
  pub after : App
  pub link_after : T
  pub returns : result ≡ some (after, link_after)
  pub link_valid : Valid link_after
  pub app_valid : IsApp after
  pub gated : is_connected a.state ≡ false → after.router ≡ a.router

IsApp-state :
    (a : App) (s : ConnectionState)
    → IsApp a
    → a.ticks_since_last_packet ≤ 500
    → IsApp (record a { state = s })
IsApp-state a s ok fresh = record {
  router_valid = ok.router_valid;
  ui_valid = ok.ui_valid;
  room = ok.room;
  are_bytes = ok.are_bytes;
  alive = λ e. fresh;
}

IsApp-payload :
    (a : App) (buf : List ℕ)
    → IsApp a
    → length buf ≡ 512
    → IsBytes buf
    → IsApp (record a { payload_buf = buf })
IsApp-payload a buf ok room bytes = record {
  router_valid = ok.router_valid;
  ui_valid = ok.ui_valid;
  room = room;
  are_bytes = bytes;
  alive = ok.alive;
}

IsApp-fresh : (a : App) → IsApp a → IsApp (record a { ticks_since_last_packet = 0 })
IsApp-fresh a ok = record {
  router_valid = ok.router_valid;
  ui_valid = ok.ui_valid;
  room = ok.room;
  are_bytes = ok.are_bytes;
  alive = λ e. omega arith;
}

on_error-IsApp : (r : TransportResult) (a : App) → IsApp a → IsApp (on_error r a)
on_error-IsApp TransportResult.error a ok = record {
  router_valid = ok.router_valid;
  ui_valid = ok.ui_valid;
  room = ok.room;
  are_bytes = ok.are_bytes;
  alive = λ no. absurd (ground (arith, no));
}
on_error-IsApp _ a ok = ok

on_error-router : (r : TransportResult) (a : App) → (on_error r a).router ≡ a.router
on_error-router TransportResult.error a = refl
on_error-router _ a = refl

-- What fits a header fits the array that it is received into.
into_header :
    (vs : List ℕ) → length vs ≤ packet_header_size → 0 + length vs ≤ length {A = ℕ} (replicate 12 0)
into_header vs h = omega (arith, h)

abbrev blank : PacketHeader
blank = record { magic = 0; protocol_version = 0; message_id = 0; payload_size = 0 }

module _ {T : Type 0} (link : Link T) (sound : SoundLink link) where
  open sound use {Valid, receives, sends, delays}

  stays : (a : App) (t : T) → IsApp a → Valid t → Handles Valid a (some (a, t))
  stays a t ok valid = record {
    after = a;
    link_after = t;
    returns = refl;
    link_valid = valid;
    app_valid = ok;
    gated = λ e. refl;
  }

  answer_hello-Handles :
      (hdr : PacketHeader) (a : App) (t : T)
      → IsApp a
      → a.ticks_since_last_packet ≤ 500
      → Valid t
      → Handles Valid a (answer_hello link hdr a t)
  unfolding answer_hello
  answer_hello-Handles hdr a t ok fresh valid =
      let sent =
        sends (header_bytes hello_reply) packet_header_size t (omega arith) (omega arith) valid in
      elim (Bool-cases (hdr.protocol_version == expected_ver)) [
        | inl same ↦ record {
          after = if is_ok sent.outcome then record a { state = ConnectionState.connected } else a;
          link_after = sent.after;
          returns = rw (
            same,
            serialize_header_lem hello_reply (replicate 12 0) packet_header_size (omega arith)
                (omega arith),
            sent.returns,
          );
          link_valid = sent.valid;
          app_valid =
              if_intro IsApp (is_ok sent.outcome) _ a
                (IsApp-state a ConnectionState.connected ok fresh) ok;
          gated =
              λ e. if_intro (λ (b : App). b.router ≡ a.router) (is_ok sent.outcome) _ a refl refl;
        }
        | inr other ↦ record {
          after = a;
          link_after = t;
          returns = rw other;
          link_valid = valid;
          app_valid = ok;
          gated = λ e. refl;
        }
      ]

  handle_packet-Handles :
      (hdr : PacketHeader) (a : App) (t : T)
      → IsApp a
      → a.ticks_since_last_packet ≤ 500
      → Valid t
      → Handles Valid a (handle_packet link hdr a t)
  unfolding handle_packet
  handle_packet-Handles hdr a t ok fresh valid =
      if_intro (Handles Valid a)
        (not (is_connected a.state) && hdr.message_id == message_code MessageId.hello) _ _
        (answer_hello-Handles hdr a t ok fresh valid)
        (elim (Bool-cases (is_connected a.state)) [
          | inr alone ↦ record {
            after = a;
            link_after = t;
            returns = rw alone;
            link_valid = valid;
            app_valid = ok;
            gated = λ e. refl;
          }
          | inl together ↦
              let room : length a.payload_buf ≡ 512 = ok.room in
              let d =
                router_dispatch-IsRouter hdr a.payload_buf a.router ok.router_valid ok.are_bytes
                  (omega arith) in
              record {
                after = record a { router = d.after };
                link_after = t;
                returns = rw (together, d.returns);
                link_valid = valid;
                app_valid = record {
                  router_valid = d.keeps;
                  ui_valid = ok.ui_valid;
                  room = ok.room;
                  are_bytes = ok.are_bytes;
                  alive = ok.alive;
                };
                gated = λ e. absurd (ground (arith, together, e));
              }
        ])

  read_packet-Handles :
      (hdr : PacketHeader) (a : App) (t : T)
      → IsApp a
      → a.ticks_since_last_packet ≤ 500
      → Valid t
      → Handles Valid a (read_packet link hdr a t)
  unfolding read_packet finish_packet
  read_packet-Handles hdr a t ok fresh valid = elim (Bool-cases (ltb 0 hdr.payload_size)) [
    | inr none_announced ↦
        let h = handle_packet-Handles hdr a t ok fresh valid in
        record {
          after = h.after;
          link_after = h.link_after;
          returns = rw none_announced h.returns;
          link_valid = h.link_valid;
          app_valid = h.app_valid;
          gated = h.gated;
        }
    | inl some_announced ↦ elim (Bool-cases (leb hdr.payload_size payload_capacity)) [
      | inr too_large ↦ record {
        after = a;
        link_after = t;
        returns = rw (some_announced, too_large);
        link_valid = valid;
        app_valid = ok;
        gated = λ e. refl;
      }
      | inl fits ↦
          let room : length a.payload_buf ≡ 512 = ok.room in
          let f =
            fetch_payload_ends link sound hdr.payload_size a.payload_buf t (ground arith)
              (omega arith) ok.are_bytes valid in
          let a' : App = record a { payload_buf = f.buf } in
          let ok' = IsApp-payload a f.buf ok (f.same_room ∙ room) f.are_bytes in
          let h =
            if_intro (Handles Valid a') (f.complete && leb hdr.payload_size f.got) _ _
              (handle_packet-Handles hdr a' f.after ok' fresh f.valid)
              (stays a' f.after ok' f.valid) in
          record {
            after = h.after;
            link_after = h.link_after;
            returns = rw (some_announced, fits, f.returns) h.returns;
            link_valid = h.link_valid;
            app_valid = h.app_valid;
            gated = h.gated;
          }
    ]
  ]

  -- From a valid state and link, on a link that keeps the transport's promises, an attempt to
  -- receive a packet comes to its end, whatever the link delivers, and gives a valid state and
  -- link. Bytes that arrive while the program is not connected, however they are made up, change
  -- none of the router's globals.
  pub receive_packet-Handles :
      (a : App) (t : T) → IsApp a → Valid t → Handles Valid a (receive_packet link a t)
  unfolding receive_packet
  receive_packet-Handles a t ok valid =
      let s = receives packet_header_size t (omega arith) valid in
      let n = chunk_of s.received.out_size in
      let n_fits : n ≤ packet_header_size = chunk_bounded packet_header_size s.received s.sound in
      let rx_buf = overwrite 0 s.received.stored (replicate 12 0) in
      let inside = into_header s.received.stored s.sound.bounded in
      let stored = store_all-overwrite 0 s.received.stored (replicate 12 0) inside in
      let same = length-overwrite 0 s.received.stored (replicate 12 0) inside in
      let bytes =
        IsBytes-overwrite 0 s.received.stored (replicate 12 0) s.sound.are_bytes
          (replicate_zero-IsBytes 12) in
      elim (Bool-cases (is_ok s.received.result && leb packet_header_size n)) [
        | inr nothing ↦ record {
          after = on_error s.received.result a;
          link_after = s.after;
          returns = rw (s.returns, stored, nothing);
          link_valid = s.valid;
          app_valid = on_error-IsApp s.received.result a ok;
          gated = λ e. on_error-router s.received.result a;
        }
        | inl whole ↦
            let d =
              deserialize_header-Decodes rx_buf n blank bytes (ground (arith, whole))
                (omega arith) in
            elim (Bool-cases (d.header.magic == protocol_magic)) [
              | inr foreign ↦ record {
                after = a;
                link_after = s.after;
                returns = rw (s.returns, stored, whole, d.returns, foreign);
                link_valid = s.valid;
                app_valid = ok;
                gated = λ e. refl;
              }
              | inl ours ↦
                  let fresh : App = record a { ticks_since_last_packet = 0 } in
                  let h =
                    read_packet-Handles d.header fresh s.after (IsApp-fresh a ok) (omega arith)
                      s.valid in
                  record {
                    after = h.after;
                    link_after = h.link_after;
                    returns = rw (s.returns, stored, whole, d.returns, ours) h.returns;
                    link_valid = h.link_valid;
                    app_valid = h.app_valid;
                    gated = h.gated;
                  }
            ]
      ]
