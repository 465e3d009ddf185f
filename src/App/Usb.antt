-- ===== src/App/Usb.antt =====
-- The transport of apps/psp/src/transport_usb.c on the kernel driver, as the link of the main loop.
use psp_dev_link.Base.{
  ℕ, ◌^◌, ◌≤◌, ◌<◌, ◌≡◌, List, some, ℤ, is_neg, ◌>>=◌, length, Bool-cases, inl, inr, ◌∙◌, ◌||◌,
  if◌then◌else◌, sym,
}
use mathlib.Core.Path.{subst}
use psp_dev_link.Driver.{UsbBus, Driver, Request, IsDriver, send_args_size}
use psp_dev_link.Driver.Laws.{BulkOut, io_ioctl-Sends}
use psp_dev_link.Transport.{
  Kernel, Transport, TransportResult, int_of_size, transport_send, transport_receive,
  transport_shutdown,
}
use psp_dev_link.Transport.Laws.{through, signed_size, transport_receive-ReceivesBytes}
use psp_dev_link.App.{App, Buttons, iterate}
use psp_dev_link.App.State.{IsApp}
use psp_dev_link.App.Loop.{Iterates, iterate-Iterates}
use psp_dev_link.App.Payload.{Link}
use psp_dev_link.App.Payload.Laws.{Serves, Sends, SoundLink}

-- The state of the transport with the driver and the bus behind it.
abbrev pub Usb : Type 0 → Type 0
Usb U = Transport × (Driver × U)

abbrev pub usb_link : {U : Type 0} → Kernel (Driver × U) → Link (Usb U)
usb_link k = record {
  receive = λ n (t, s). transport_receive k n t s >>= λ (r, t', s'). some (r, (t', s'));
  send = λ bytes n (t, s). transport_send k bytes n t s >>= λ (r, t', s'). some (r, (t', s'));
  delay_thread = λ n (t, s). (t, k.delay_thread n s);
  status_msg = λ (t, s). t.status_msg;
  shutdown = λ (t, s). let (result, t', s') = transport_shutdown k t s in (t', s');
}

-- The driver's buffers have their sizes.
abbrev pub IsUsb : {U : Type 0} → Usb U → Type 0
IsUsb (t, (d, u)) = IsDriver d

module _ {U : Type 0} (bus : UsbBus U) (laws : BulkOut bus) (k : Kernel (Driver × U))
    (reaches : (fd : ℤ) (q : Request) (s : Driver × U) → k.ioctl fd q s ≡ through bus q s)
    (keeps_driver : (n : ℕ) (s : Driver × U) → (k.delay_thread n s).0 ≡ s.0) where
  pub transport_send-Sends :
      (bytes : List ℕ) (n : ℕ) (t : Transport) (d : Driver) (u : U)
      → n ≤ length bytes
      → n < 2 ^ 31
      → IsDriver d
      → Sends IsUsb ((usb_link k).send bytes n (t, (d, u)))
  unfolding transport_send
  transport_send-Sends bytes n t d u there small ok =
      elim (Bool-cases (t.mock_mode || is_neg t.io_fd)) [
        | inl off ↦ record {
          outcome = TransportResult.ok;
          after = (t, (d, u));
          returns = rw off;
          valid = ok;
        }
        | inr on ↦
            let sent = io_ioctl-Sends bus bytes n d u ok there in
            let answer : k.ioctl t.io_fd
                  (Request.send (some (record { bytes = bytes; size = int_of_size n }))
                    send_args_size)
                  (d, u)
                ≡ some (sent.reply, (sent.driver, sent.world)) =
              reaches _ _ _ ∙ rw (signed_size n small, sent.returns) in
            record {
              outcome = if is_neg sent.reply.ret then TransportResult.error else TransportResult.ok;
              after = (t, (sent.driver, sent.world));
              returns = rw (on, answer);
              valid = sent.keeps;
            }
      ]

  pub transport_receive-Serves :
      (n : ℕ) (t : Transport) (d : Driver) (u : U)
      → n < 2 ^ 31
      → IsDriver d
      → Serves IsUsb n ((usb_link k).receive n (t, (d, u)))
  transport_receive-Serves n t d u small ok =
      let got = transport_receive-ReceivesBytes bus laws k reaches n t d u small ok in
      record {
        received = got.received;
        after = (t, (got.driver, got.bus_state));
        returns = rw got.returns;
        valid = got.keeps;
        sound = got.sound;
      }

  pub transport_shutdown-IsUsb :
      (t : Transport) (d : Driver) (u : U) → IsDriver d → IsUsb ((usb_link k).shutdown (t, (d, u)))
  unfolding transport_shutdown
  transport_shutdown-IsUsb t d u ok = ok

  -- The transport on the kernel driver is a link that keeps the promises the main loop relies on,
  -- whether it is in mock mode or not, as long as the driver's buffers have their sizes, the bus
  -- keeps to `BulkOut`, the kernel's ioctl reaches the driver and a delay leaves the driver alone.
  abbrev pub usb_sound : SoundLink (usb_link k)
  usb_sound = record {
    Valid = IsUsb;
    receives = λ n (t, (d, u)) small ok. transport_receive-Serves n t d u small ok;
    sends = λ bytes n (t, (d, u)) there small ok. transport_send-Sends bytes n t d u there small ok;
    delays = λ n (t, (d, u)) ok. subst IsDriver (sym (keeps_driver n (d, u))) ok;
    shuts = λ (t, (d, u)) ok. transport_shutdown-IsUsb t d u ok;
  }

  -- From a valid state of the program and of the driver's buffers, an iteration of the loop on the
  -- transport and the kernel driver always comes to its end and gives a valid state, with the
  -- driver's buffers of their sizes again, whatever the transport's mode, the buttons and the
  -- bytes that arrive. It rests on what `BulkOut` says of the bus, on the kernel's ioctl reaching
  -- the driver, and on a delay leaving the driver alone.
  pub iterate-usb_link :
      (pad : Buttons) (a : App) (t : Transport) (d : Driver) (u : U)
      → IsApp a
      → IsDriver d
      → Iterates (usb_link k) usb_sound (iterate (usb_link k) pad a (t, (d, u)))
  iterate-usb_link pad a t d u ok valid =
      iterate-Iterates (usb_link k) usb_sound pad a (t, (d, u)) ok valid
