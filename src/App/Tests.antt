-- ===== src/App/Tests.antt =====
-- A link that delivers the bytes of a list, and the theorems on apps/psp/src/main.c applied to it.
use psp_dev_link.Base.{
  pos, negsuc, ℕ, zero, suc, ◌≡◌, refl, List, [], ◌∷◌, some, length, take, drop, length-take,
  replicate, true, false, leb, arith, inl,
}
use psp_dev_link.Wire.{IsBytes}
use psp_dev_link.Wire.Laws.{IsBytes-drop}
use psp_dev_link.Packet.{PacketHeader}
use psp_dev_link.Transport.{TransportResult, StatusMessage, Transport, Kernel, initial_transport}
use psp_dev_link.Transport.Laws.{through}
use psp_dev_link.Driver.{UsbBus, Driver, loaded_driver}
use psp_dev_link.Driver.Laws.{BulkOut}
use psp_dev_link.App.Usb.{usb_link, usb_sound, iterate-usb_link}
use psp_dev_link.App.{
  App, ConnectionState, Buttons, initial_app, is_connected, handle_packet, receive_packet, iterate,
}
use psp_dev_link.App.Payload.{Link, fetch_payload}
use psp_dev_link.App.Payload.Laws.{SoundLink, FetchesPayload, fetch_payload_ends}
use psp_dev_link.App.Connection.{handle_packet_handshake, silent_iterations, watchdog_lifetime}
use psp_dev_link.App.State.{IsApp, initial_app-IsApp}
use psp_dev_link.App.Packets.{Handles, receive_packet-Handles}
use psp_dev_link.App.Loop.{Iterates, iterate-Iterates}

-- The bytes that are still to come. Whatever is sent is accepted.
abbrev pipe : Link (List ℕ)
pipe = record {
  receive = λ n t. some (
    record { result = TransportResult.ok; stored = take n t; out_size = some (length (take n t)) },
    drop n t,
  );
  send = λ bytes n t. some (TransportResult.ok, t);
  delay_thread = λ n t. t;
  shutdown = λ t. t;
  status_msg = λ t. StatusMessage.waiting_for_host;
}

IsBytes-take : (n : ℕ) (t : List ℕ) → IsBytes t → IsBytes (take n t)
IsBytes-take zero t h = tt
IsBytes-take (suc n) [] h = tt
IsBytes-take (suc n) (x ∷ t) h = (h.0, IsBytes-take n t h.1)

abbrev pipe_sound : SoundLink pipe
pipe_sound = record {
  Valid = IsBytes;
  receives = λ n t small ok. record {
    received = record {
      result = TransportResult.ok;
      stored = take n t;
      out_size = some (length (take n t));
    };
    after = drop n t;
    returns = refl;
    valid = IsBytes-drop n t ok;
    sound = record {
      bounded = omega (arith, length-take n t);
      are_bytes = IsBytes-take n t ok;
      counted = inl (refl, refl);
    };
  };
  sends = λ bytes n t there small ok. record {
    outcome = TransportResult.ok;
    after = t;
    returns = refl;
    valid = ok;
  };
  delays = λ n t ok. ok;
  shuts = λ t ok. ok;
}

abbrev hello : PacketHeader
hello = record { magic = 0x5053; protocol_version = 256; message_id = 1; payload_size = 0 }

abbrev pressed : Buttons
pressed = record { start = false; select = true; square = false; triangle = false; circle = true }

abbrev linked : App
linked = record initial_app { state = ConnectionState.connected }

replicate-IsBytes : (n : ℕ) → IsBytes (replicate n 7)
replicate-IsBytes zero = tt
replicate-IsBytes (suc n) = (omega arith, replicate-IsBytes n)

fetch_payload_ends_example :
    FetchesPayload IsBytes 20 512 (fetch_payload pipe 121 20 0 0 (replicate 512 7) (replicate 13 7))
fetch_payload_ends_example =
    fetch_payload_ends pipe pipe_sound 20 (replicate 512 7) (replicate 13 7) (omega arith)
      (omega arith) (replicate-IsBytes 512) (replicate-IsBytes 13)

handle_packet_handshake_example : handle_packet pipe hello initial_app [] ≡ some (linked, [])
handle_packet_handshake_example =
    handle_packet_handshake pipe hello initial_app [] TransportResult.ok [] refl refl

watchdog_lifetime_example : is_connected (silent_iterations 501 linked).state ≡ leb 501 500
watchdog_lifetime_example = watchdog_lifetime 501 linked refl (omega arith)

receive_packet-Handles_example :
    Handles IsBytes initial_app (receive_packet pipe initial_app (replicate 12 7))
receive_packet-Handles_example =
    receive_packet-Handles pipe pipe_sound initial_app (replicate 12 7) initial_app-IsApp
      (replicate-IsBytes 12)

iterate-Iterates_example :
    Iterates pipe pipe_sound (iterate pipe pressed initial_app (replicate 12 7))
iterate-Iterates_example =
    iterate-Iterates pipe pipe_sound pressed initial_app (replicate 12 7) initial_app-IsApp
      (replicate-IsBytes 12)

-- A bus that never delivers anything.
abbrev dead_bus : UsbBus ℕ
dead_bus = record {
  create_event_flag = λ w. (pos 7, w);
  set_event_flag = λ e n w. w;
  delete_event_flag = λ e w. w;
  writeback = λ n w. w;
  invalidate = λ n w. w;
  bbd_register = λ w. (pos 0, w);
  bbd_unregister = λ w. w;
  req_send = λ bytes w. (record { ret = pos 0; recvsize = pos 0; arrived = [] }, w);
  req_recv = λ n w. (record { ret = negsuc 0; recvsize = pos 0; arrived = [] }, w);
  add_drv = λ w. w;
  del_drv = λ w. w;
}

abbrev kernel : Kernel (Driver × ℕ)
kernel = record {
  io_open = λ w. (pos 3, w);
  load_module = λ w. (pos 1, w);
  start_module = λ m w. (pos 0, w);
  ioctl = λ fd q w. through dead_bus q w;
  usb_start_bus = λ w. (pos 0, w);
  usb_start_driver = λ w. (pos 0, w);
  delay_thread = λ n w. w;
  usb_activate = λ p w. (pos 0, w);
}

dead_bus_out : BulkOut dead_bus
dead_bus_out = record { fits = λ n w. omega arith; bytes = λ n w. tt; counts = λ n w e. refl }

abbrev opened : Transport
opened = record initial_transport { io_fd = pos 3 }

iterate-usb_link_example :
    Iterates
      (usb_link kernel)
      (usb_sound dead_bus dead_bus_out kernel (λ fd q s. refl) (λ n s. refl))
      (iterate (usb_link kernel) pressed linked (opened, (loaded_driver, 0)))
iterate-usb_link_example =
    iterate-usb_link dead_bus dead_bus_out kernel (λ fd q s. refl) (λ n s. refl) pressed linked
      opened loaded_driver 0 linked-IsApp (record { tx_size = refl; rx_size = refl })
  where
    linked-IsApp : IsApp linked
    linked-IsApp = record {
      router_valid = initial_app-IsApp.router_valid;
      ui_valid = initial_app-IsApp.ui_valid;
      room = initial_app-IsApp.room;
      are_bytes = initial_app-IsApp.are_bytes;
      alive = λ e. omega arith;
    }
