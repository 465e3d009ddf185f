-- ===== src/App.antt =====
-- apps/psp/src/main.c: the main loop of the PSP application, one iteration as a function.
--
-- The transport is the record `Link` over a state `T` that holds it and the kernel behind it;
-- apps/psp/src/transport_usb.c is one. The buttons of the iteration are an argument, and its frame
-- is part of the result. `none` is an access outside an array.
pub mod Payload
pub mod State
pub mod Packets
pub mod Loop
pub mod Connection
pub mod Usb
mod Tests
use psp_dev_link.Base.{
  ℕ, ◌+◌, ◌-◌, ◌<◌, ◌≤◌, ◌≡◌, List, [], Option, none, some, ℤ, pos, ◌>>=◌, length, replicate, Bool,
  true, false, not, ltb, leb, ◌==◌, ◌&&◌, ◌||◌, if◌then◌else◌, store_all,
}
use mathlib.Core.Option.{get_or}
use psp_dev_link.Packet.{
  PacketHeader, MessageId, message_code, packet_header_size, protocol_magic, serialize_header,
  deserialize_header,
}
use psp_dev_link.Router.{Router, router_dispatch, initial_router, is_zero}
use psp_dev_link.Transport.{TransportResult, StatusMessage}
use psp_dev_link.Ui.{Ui, initial_ui, ui_toggle_history, ui_handle_circle_press, ui_add_notification}
use psp_dev_link.Ui.Cards.{UiConnectionState}
use psp_dev_link.Ui.Draw.{Draw}
use psp_dev_link.Ui.Frame.{ui_render}
use Payload.{Link, Fetch, fetched, out_of_fuel, chunk_of, is_ok, fetch_payload, payload_capacity}

pub data ConnectionState : Type 0 where
  disconnected connected : ConnectionState

-- The buttons that the program looks at, down or not.
pub record Buttons : Type 0 where
  pub start : Bool
  pub select : Bool
  pub square : Bool
  pub triangle : Bool
  pub circle : Bool

pub record App : Type 0 where
  pub router : Router
  pub ui : Ui
  pub state : ConnectionState
  pub ticks_since_last_packet : ℕ
  pub select_was_pressed : Bool
  pub circle_was_pressed : Bool
  pub payload_buf : List ℕ

-- As `main` enters the loop.
abbrev pub initial_app : App
initial_app = record {
  router = initial_router;
  ui = initial_ui;
  state = ConnectionState.disconnected;
  ticks_since_last_packet = 0;
  select_was_pressed = false;
  circle_was_pressed = false;
  payload_buf = replicate 512 0;
}

-- `(PSPDL_PROTOCOL_VERSION_MAJOR << 8) | PSPDL_PROTOCOL_VERSION_MINOR`, with version 1.0
abbrev pub expected_ver : ℕ
expected_ver = 256

abbrev pub hello_reply : PacketHeader
hello_reply = record {
  magic = protocol_magic;
  protocol_version = expected_ver;
  message_id = message_code MessageId.hello;
  payload_size = 0;
}

abbrev pub is_connected : ConnectionState → Bool
is_connected ConnectionState.connected = true
is_connected ConnectionState.disconnected = false

-- SELECT with SQUARE, and SELECT with TRIANGLE, simulate a remote command; the later test wins.
unfoldable pub shortcuts : Buttons → Router → Router
shortcuts pad r =
    let exit = if pad.select && pad.square then record r { remote_command = 1 } else r in
    if pad.select && pad.triangle then record exit { remote_command = 2 } else exit

unfoldable pub press_select : Buttons → App → App
press_select pad a =
    if pad.select && not pad.square && not pad.triangle
    then (if a.select_was_pressed
        then a
        else record a { ui = ui_toggle_history a.ui; select_was_pressed = true })
    else record a { select_was_pressed = false }

unfoldable pub press_circle : Buttons → App → App
press_circle pad a =
    if pad.circle
    then (if a.circle_was_pressed
        then a
        else record a { ui = ui_handle_circle_press a.ui; circle_was_pressed = true })
    else record a { circle_was_pressed = false }

-- The watchdog. `ticks_since_last_packet` is a `uint32_t` that never comes near its end.
unfoldable pub watchdog : App → App
watchdog a =
    let ticks = a.ticks_since_last_packet + 1 in
    if is_connected a.state
    then record a {
      ticks_since_last_packet = ticks;
      state = if ltb 500 ticks then ConnectionState.disconnected else a.state;
    }
    else a

-- A failed reception ends the connection.
abbrev pub on_error : TransportResult → App → App
on_error TransportResult.error a = record a { state = ConnectionState.disconnected }
on_error _ a = a

-- A new notification goes to the user interface once.
unfoldable pub forward_notification : App → Option App
forward_notification a =
    let added = ui_add_notification (some a.router.current_notif) a.ui >>= λ u.
    some (record a { ui = u; router = record a.router { new_notification_received = 0 } }) in
    if a.router.new_notification_received == 0 then some a else added

abbrev pub ui_state : ConnectionState → UiConnectionState
ui_state ConnectionState.connected = UiConnectionState.ui_connected
ui_state ConnectionState.disconnected = UiConnectionState.ui_disconnected

-- How an iteration ends.
pub data Outcome (T : Type 0) : Type 0 where
  running : App → T → List Draw → Outcome T
  exited : App → T → Outcome T
  rebooted : App → T → Outcome T

module _ {T : Type 0} (link : Link T) where
  open link use {receive, send, delay_thread, status_msg, shutdown}

  -- The answer to a HELLO in the disconnected state.
  unfoldable pub answer_hello : PacketHeader → App → T → Option (App × T)
  answer_hello hdr a t =
      let answered =
        serialize_header (some hello_reply) (some (replicate 12 0)) packet_header_size
        >>= λ (ret, tx_buf).
            send (get_or tx_buf (replicate 12 0)) packet_header_size t >>= λ (sent, t').
            some ((if is_ok sent then record a { state = ConnectionState.connected } else a), t') in
      if hdr.protocol_version == expected_ver then answered else some (a, t)

  -- A packet whose payload is complete.
  unfoldable pub handle_packet : PacketHeader → App → T → Option (App × T)
  unfolding answer_hello
  handle_packet hdr a t =
      let hello = answer_hello hdr a t in
      let routed = router_dispatch (some hdr) (some a.payload_buf) a.router >>= λ (ret, r).
      some (record a { router = r }, t) in
      if not (is_connected a.state) && hdr.message_id == message_code MessageId.hello
      then hello
      else if is_connected a.state
      then routed
      else some (a, t)

  -- After the loop that reads the payload. The fuel does not run out.
  unfoldable pub finish_packet : PacketHeader → App → Fetch T → Option (App × T)
  unfolding handle_packet
  finish_packet hdr a out_of_fuel = none
  finish_packet hdr a (fetched complete got buf t) =
      let a' : App = record a { payload_buf = buf } in
      let done = handle_packet hdr a' t in
      if complete && leb hdr.payload_size got then done else some (a', t)

  -- The payload of a packet with a valid header, and what is done with both. The fuel of the loop is
  -- one more than the rounds that it can make.
  unfoldable pub read_packet : PacketHeader → App → T → Option (App × T)
  unfolding handle_packet finish_packet fetch_payload
  read_packet hdr a t =
      let size = hdr.payload_size in
      let fetching =
        fetch_payload link (size + 101) size 0 0 a.payload_buf t >>= λ f. finish_packet hdr a f in
      if ltb 0 size
      then (if leb size payload_capacity then fetching else some (a, t))
      else handle_packet hdr a t

  -- One attempt to receive a packet. `rx_buf` and `rx_hdr` are locals that nothing has set; what
  -- stands in them here is read only where the source has stored over it.
  unfoldable pub receive_packet : App → T → Option (App × T)
  unfolding read_packet deserialize_header
  receive_packet a t = do
    (r, t') ← receive packet_header_size t
    rx_buf ← store_all 0 r.stored (replicate 12 0)
    let received = chunk_of r.out_size
    let blank : PacketHeader = record {
      magic = 0;
      protocol_version = 0;
      message_id = 0;
      payload_size = 0;
    }
    let parsed = deserialize_header (some rx_buf) received (some blank) >>= λ (ret, hdr).
        (let h = get_or hdr blank in
          let packet = read_packet h (record a { ticks_since_last_packet = 0 }) t' in
          if is_zero ret then packet else some (a, t'))
    if is_ok r.result && leb packet_header_size received
        then parsed
        else some (on_error r.result a, t')

  -- The iteration from the reception of a packet on.
  unfoldable pub serve : App → T → Option (Outcome T)
  unfolding receive_packet watchdog forward_notification ui_render
  serve a t = do
    (got, t1) ← receive_packet a t
    a2 ← forward_notification (watchdog got)
    (frame, ui) ←
        ui_render (ui_state a2.state) (some a2.router.current_stats) (some a2.router.current_git)
          (some a2.router.current_notif) (status_msg t1) a2.ui
    some (running (record a2 { ui = ui }) (delay_thread 10000 t1) frame)

  -- One iteration of `while (1)`.
  unfoldable pub iterate : Buttons → App → T → Option (Outcome T)
  unfolding shortcuts press_select press_circle serve
  iterate pad a t =
      let a1 : App = record a { router = shortcuts pad a.router } in
      let served = serve (press_circle pad (press_select pad a1)) t in
      if pad.start || a.router.remote_command == 1
      then some (exited a (shutdown t))
      else if a1.router.remote_command == 2
      then some (rebooted a1 (shutdown (delay_thread 100000 t)))
      else served
