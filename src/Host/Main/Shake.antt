-- ===== src/Host/Main/Shake.antt =====
-- The handshake of apps/desktop/src/main.cpp.
use psp_dev_link.Base.{
  ℕ, ◌+◌, ◌≤◌, ◌≡◌, refl, List, length, replicate, codes, Bool, leb, ◌&&◌, if◌then◌else◌, if_intro,
  Bool-cases, inl, inr, arith, overwrite, store_all-overwrite, length-overwrite,
}
use psp_dev_link.Wire.{IsBytes}
use psp_dev_link.Wire.Laws.{IsBytes-overwrite}
use psp_dev_link.Packet.{MessageId, packet_header_size, header_bytes}
use psp_dev_link.Packet.Laws.{deserialize_header-Decodes}
use psp_dev_link.App.Payload.{is_ok}
use psp_dev_link.App.State.{replicate_zero-IsBytes}
use psp_dev_link.Host.Http.{update_connection_state}
use psp_dev_link.Host.Http.Laws.{add_log-bounded}
use psp_dev_link.Host.Transport.{HostReceived}
use psp_dev_link.Host.Frames.{frame_header}
use psp_dev_link.Host.Frames.Laws.{bare_frame_lem}
use psp_dev_link.Host.Main.Link.{HostLink, SoundHostLink}
use psp_dev_link.Host.Main.{Host, Inputs, blank_header, is_error, complete_handshake, seconds_since}
use psp_dev_link.Host.Main.Loop.{send_hello, hear_reply, handshake}
use psp_dev_link.Host.Main.Laws.{Runs, run, proceed-Runs, lose-Ends, send_if_due, stays}
use psp_dev_link.Host.Main.Laws.{Handshaking, Open}

module _ {T : Type 0} (link : HostLink T) (sound : SoundHostLink link) where
  open sound use {Valid, initializes, sends, receives, shuts_down}

  send_hello-Runs :
      (i : Inputs) (h : Host) (t : T)
      → (Handshaking link sound) h t
      → Runs link sound (Handshaking link sound) (send_hello link i h t)
  unfolding send_hello
  send_hello-Runs i h t (s, ok, open_device) =
      send_if_due link sound (Handshaking link sound)
        (leb 1 (seconds_since i.hello_time h.last_hello_time)) _
        (header_bytes (frame_header MessageId.hello 0)) _
        (λ h'. record h' { last_hello_time = i.hello_time }) h h t (bare_frame_lem MessageId.hello)
        (omega arith) ok open_device (λ t' valid. (s, ok, valid)) (s, ok, open_device)

  completed :
      (i : Inputs) (h : Host) (t : T) (reply : Bool)
      → (Handshaking link sound) h t
      → (Open link sound) (if reply then complete_handshake link i h else h) t
  unfolding complete_handshake update_connection_state
  completed i h t reply (s, ok, open_device) =
      if_intro (λ h'. (Open link sound) h' t) reply _ h
        (
          refl,
          add_log-bounded (codes "Handshake Complete. Connected successfully!") (codes "success")
              (update_connection_state (codes "CONNECTED") h.server) ok,
          open_device,
        )
        (rw s refl, ok, open_device)

  hear_reply-Runs :
      (i : Inputs) (h : Host) (r : HostReceived) (t : T)
      → (Handshaking link sound) h t
      → length r.stored ≤ 12
      → IsBytes r.stored
      → r.received ≤ 12
      → Runs link sound (Open link sound) (hear_reply link i h r t)
  unfolding hear_reply
  hear_reply-Runs i h r t (s, ok, open_device) inside bytes counted =
      elim (Bool-cases (is_ok r.result && leb packet_header_size r.received)) [
        | inl whole ↦
            let empty : List ℕ = replicate 12 0 in
            let fits : 0 + length r.stored ≤ length empty = omega (arith, inside) in
            let rx_buf = overwrite 0 r.stored empty in
            let room : length rx_buf ≡ 12 = length-overwrite 0 r.stored empty fits in
            let d =
              deserialize_header-Decodes rx_buf r.received blank_header
                (IsBytes-overwrite 0 r.stored empty bytes (replicate_zero-IsBytes 12))
                (ground (arith, whole)) (omega (arith, room, counted)) in
            rw (whole, store_all-overwrite 0 r.stored empty fits, d.returns)
              (stays link sound (Open link sound) _ t (completed i h t _ (s, ok, open_device)))
        | inr none_whole ↦ rw none_whole (
            if_intro (Runs link sound (Open link sound)) (is_error r.result) _ _
              (run link sound (Open link sound) _
                (lose-Ends link sound (Open link sound) _ h t ok open_device))
              (stays link sound (Open link sound) h t (rw s refl, ok, open_device)))
      ]

  pub handshake-Runs :
      (i : Inputs) (h : Host) (t : T)
      → (Handshaking link sound) h t
      → Runs link sound (Open link sound) (handshake link i h t)
  unfolding handshake
  handshake-Runs i h t ok =
      proceed-Runs link sound (Handshaking link sound) (Open link sound) (send_hello link i h t) _
        (send_hello-Runs i h t ok)
        (λ h' t' (s, few, open_device).
          let (valid, inside, bytes, counted) =
            receives packet_header_size t' (omega arith) open_device in
          hear_reply-Runs i h' (link.receive packet_header_size t').0
            (link.receive packet_header_size t').1 (s, few, valid) inside bytes counted)
