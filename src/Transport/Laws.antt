-- ===== src/Transport/Laws.antt =====
-- apps/psp/src/transport_usb.c over the kernel and over the driver of
-- apps/psp/driver/pspdl_driver_kernel.c.
use psp_dev_link.Base.{
  ℕ, ◌^◌, ◌<◌, ◌≡◌, refl, [], Option, none, some, ℤ, pos, is_neg, ◌>>=◌, length, true, false, ◌||◌,
  if◌then◌else◌, Bool-cases, ◌⊎◌, inl, inr, lt→ltb, arith, ap, sym, ◌∙◌, List, ◌∷◌, Bool,
}
use mathlib.Core.Bool.{false≢true}
use mathlib.Core.Option.{get_or}
use psp_dev_link.Driver.{UsbBus, Driver, Request, Reply, recv_args_size, io_ioctl, IsDriver}
use psp_dev_link.Driver.Descriptors.{usb_product_id}
use psp_dev_link.Driver.Laws.{BulkOut, io_ioctl-Receives}
use psp_dev_link.Transport.{
  TransportResult, StatusMessage, Kernel, Transport, Received, IsReceived, int_of_size, count_of,
  mock, bring_up, load_driver, transport_initialize, transport_receive,
}

-- A call that can fail: its code, and the message that its failure deserves.
abbrev pub Attempt : Type 0
Attempt = ℤ × (ℤ → StatusMessage)

-- The message of the first call that failed.
abbrev pub first_failure : List Attempt → Option StatusMessage
first_failure [] = none
first_failure ((code, message) ∷ later) =
    if is_neg code then some (message code) else first_failure later

abbrev pub has_failed : Option StatusMessage → Bool
has_failed none = false
has_failed (some m) = true

-- The calls that an initialisation can fail in, in their order, each with its code when those
-- before it succeed; the descriptor it ends with then, and what the start of the bus has to say.
pub record Attempts : Type 0 where
  pub calls : List Attempt
  pub fd : ℤ
  pub ready : StatusMessage

-- What initialisation gives: success, and mock mode exactly if one of the calls failed. The status
-- is that of the first that failed, or of the bus, which can only fail with the device open.
pub record IsInitialized {W : Type 0} (a : Attempts)
    (result : Option (TransportResult × Transport × W)) : Type 0 where
  pub transport : Transport
  pub world : W
  pub returns : result ≡ some (TransportResult.ok, transport, world)
  pub mode : transport.mock_mode ≡ has_failed (first_failure a.calls)
  pub message : transport.status_msg ≡ get_or (first_failure a.calls) a.ready
  pub usable :
      transport.mock_mode ≡ false → (transport.io_fd ≡ a.fd) × (is_neg transport.io_fd ≡ false)

module _ {W : Type 0} (k : Kernel W)
    (answers : (fd : ℤ) (w : W)
      → (r : Reply) × (w' : W) × (k.ioctl fd Request.init w ≡ some (r, w'))) where
  -- With the device open, it is the registration alone that counts.
  abbrev pub with_device : ℤ → W → Attempts
  with_device fd w =
      let (registered, w', e) = answers fd w in
      let bus = k.usb_start_bus w' in
      let drv = k.usb_start_driver bus.1 in
      let act = k.usb_activate usb_product_id (k.delay_thread 200000 drv.1) in
      record {
        calls = (registered.ret, StatusMessage.usb_reg_fail) ∷ [];
        fd = fd;
        ready =
            if is_neg bus.0 || is_neg drv.0 || is_neg act.0
            then StatusMessage.usb_err bus.0 drv.0 act.0
            else StatusMessage.waiting_for_host;
      }

  -- Otherwise the module is loaded and started and the device opened again before it.
  abbrev pub with_module : W → Attempts
  with_module w =
      let loaded = k.load_module w in
      let started = k.start_module loaded.0 loaded.1 in
      let opened = k.io_open started.1 in
      let registration = with_device opened.0 opened.1 in
      record registration {
        calls =
            (loaded.0, StatusMessage.prx_load_fail)
            ∷ (started.0, StatusMessage.prx_start_fail)
            ∷ (opened.0, StatusMessage.io_open_fail)
            ∷ registration.calls;
      }

  abbrev pub attempts : W → Attempts
  attempts w =
      let opened = k.io_open w in
      if is_neg opened.0 then with_module opened.1 else with_device opened.0 opened.1

  bring_up-IsInitialized :
      (t : Transport) (w : W)
      → t.mock_mode ≡ false
      → is_neg t.io_fd ≡ false
      → IsInitialized (with_device t.io_fd w) (bring_up k t w)
  unfolding bring_up
  bring_up-IsInitialized t w real open_fd =
      let (r, w', e) = answers t.io_fd w in
      elim (Bool-cases (is_neg r.ret)) [
        | inl failed ↦ record {
          transport = mock (StatusMessage.usb_reg_fail r.ret) t;
          world = w';
          returns = rw (e, failed);
          mode = rw failed;
          message = rw failed;
          usable = λ off. absurd (false≢true (sym off));
        }
        | inr fine ↦
            let bus = k.usb_start_bus w' in
            let drv = k.usb_start_driver bus.1 in
            let act = k.usb_activate usb_product_id (k.delay_thread 200000 drv.1) in
            record {
              transport = record t { status_msg = (with_device t.io_fd w).ready };
              world = act.1;
              returns = rw (e, fine);
              mode = rw fine real;
              message = rw fine;
              usable = λ on. (refl, open_fd);
            }
      ]

  load_driver-IsInitialized :
      (t : Transport) (w : W)
      → t.mock_mode ≡ false
      → IsInitialized (with_module w) (load_driver k t w)
  unfolding load_driver
  load_driver-IsInitialized t w real =
      let loaded = k.load_module w in
      let started = k.start_module loaded.0 loaded.1 in
      let opened = k.io_open started.1 in
      let t1 : Transport = record t { driver_mod = loaded.0 } in
      let t3 : Transport = record t1 { io_fd = opened.0 } in
      elim (Bool-cases (is_neg loaded.0)) [
        | inl failed ↦ record {
          transport = mock (StatusMessage.prx_load_fail loaded.0) t1;
          world = loaded.1;
          returns = rw failed;
          mode = rw failed;
          message = rw failed;
          usable = λ off. absurd (false≢true (sym off));
        }
        | inr there ↦ elim (Bool-cases (is_neg started.0)) [
          | inl failed ↦ record {
            transport = mock (StatusMessage.prx_start_fail started.0) t1;
            world = started.1;
            returns = rw (there, failed);
            mode = rw (there, failed);
            message = rw (there, failed);
            usable = λ off. absurd (false≢true (sym off));
          }
          | inr running ↦ elim (Bool-cases (is_neg opened.0)) [
            | inl failed ↦ record {
              transport = mock (StatusMessage.io_open_fail opened.0) t3;
              world = opened.1;
              returns = rw (there, running, failed);
              mode = rw (there, running, failed);
              message = rw (there, running, failed);
              usable = λ off. absurd (false≢true (sym off));
            }
            | inr fd_open ↦
                let up = bring_up-IsInitialized t3 opened.1 real fd_open in
                record {
                  transport = up.transport;
                  world = up.world;
                  returns = rw (there, running, fd_open) up.returns;
                  mode = rw (there, running, fd_open) up.mode;
                  message = rw (there, running, fd_open) up.message;
                  usable = up.usable;
                }
          ]
        ]
      ]

  -- When the driver answers the INIT ioctl at all, initialisation from a transport that is not in
  -- mock mode always returns success. It ends in mock mode exactly if one of these calls failed,
  -- made in this order: where the device cannot be opened at once, loading the module, starting it
  -- and opening the device again, and in any case the registration; the status is then the message
  -- of the first that failed, with its code. Otherwise the device is open, and the status tells
  -- whether a call that starts the bus failed.
  pub transport_initialize-IsInitialized :
      (t : Transport) (w : W)
      → t.mock_mode ≡ false
      → IsInitialized (attempts w) (transport_initialize k t w)
  unfolding transport_initialize
  transport_initialize-IsInitialized t w real =
      let opened = k.io_open w in
      let t1 : Transport = record t { io_fd = opened.0 } in
      elim (Bool-cases (is_neg opened.0)) [
        | inl closed ↦ rw closed (load_driver-IsInitialized t1 opened.1 real)
        | inr fd_open ↦ rw fd_open (bring_up-IsInitialized t1 opened.1 real fd_open)
      ]

-- The kernel's ioctl on the device, when it reaches the driver: the driver's state and the bus are
-- the state of the kernel.
abbrev pub through : {U : Type 0} → UsbBus U → Request → Driver × U → Option (Reply × (Driver × U))
through bus q (d, u) = io_ioctl bus q d u >>= λ (r, d', u'). some (r, (d', u'))

-- What a receive on a valid driver gives.
pub record ReceivesBytes {U : Type 0} (n : ℕ) (t : Transport)
    (result : Option (Received × Transport × (Driver × U))) : Type 0 where
  pub received : Received
  pub driver : Driver
  pub bus_state : U
  pub returns : result ≡ some (received, t, (driver, bus_state))
  pub keeps : IsDriver driver
  pub sound : IsReceived n received

pub signed_size : (n : ℕ) → n < 2 ^ 31 → int_of_size n ≡ pos n
signed_size n h = rw (lt→ltb n (2 ^ 31) h)

-- The count that the transport reports is the number of bytes stored.
counted_reply :
    (r : Reply)
    → ((r.ret ≡ pos 0) × (r.received ≡ some (pos (length r.copied))) × (0 < length r.copied))
      ⊎ ((r.copied ≡ []) × (r.received ≡ none))
    → count_of r.received ≡ length r.copied
counted_reply r (inl (a, b, c)) = ap count_of b
counted_reply r (inr (a, b)) = ap count_of b ∙ ap length (sym a)

silent_error :
    (r : Reply)
    → ((r.ret ≡ pos 0) × (r.received ≡ some (pos (length r.copied))) × (0 < length r.copied))
      ⊎ ((r.copied ≡ []) × (r.received ≡ none))
    → is_neg r.ret ≡ true
    → r.copied ≡ []
silent_error r (inl (a, b, c)) e = absurd (false≢true (sym (ap is_neg a) ∙ e))
silent_error r (inr (a, b)) e = a

module _ {U : Type 0} (bus : UsbBus U) (laws : BulkOut bus) (k : Kernel (Driver × U))
    (reaches : (fd : ℤ) (q : Request) (s : Driver × U) → k.ioctl fd q s ≡ through bus q s) where
  -- Where the kernel's ioctl reaches a driver whose buffers have their sizes, over a bus that keeps
  -- to `BulkOut`, a receive of fewer than 2^31 bytes returns in every mode, keeps the driver valid
  -- and the transport unchanged, stores no more bytes than were asked for, and counts exactly what
  -- it stores; where it reports no count it stores nothing.
  pub transport_receive-ReceivesBytes :
      (n : ℕ) (t : Transport) (d : Driver) (u : U)
      → n < 2 ^ 31
      → IsDriver d
      → ReceivesBytes n t (transport_receive k n t (d, u))
  unfolding transport_receive
  transport_receive-ReceivesBytes n t d u small ok =
      elim (Bool-cases (t.mock_mode || is_neg t.io_fd)) [
        | inl off ↦ record {
          received = record { result = TransportResult.ok; stored = []; out_size = none };
          driver = d;
          bus_state = u;
          returns = rw off;
          keeps = ok;
          sound = record { bounded = omega arith; are_bytes = tt; counted = inr (refl, refl) };
        }
        | inr on ↦
            let got = io_ioctl-Receives bus laws n d u ok in
            let answer : k.ioctl t.io_fd
                  (Request.recv (some (record { size = int_of_size n; has_received = true }))
                    recv_args_size)
                  (d, u)
                ≡ some (got.reply, (got.driver, got.world)) =
              reaches _ _ _ ∙ rw (signed_size n small, got.returns) in
            elim (Bool-cases (is_neg got.reply.ret)) [
              | inl failed ↦ record {
                received = record {
                  result = TransportResult.error;
                  stored = got.reply.copied;
                  out_size = none;
                };
                driver = got.driver;
                bus_state = got.world;
                returns = rw (on, answer, failed);
                keeps = got.keeps;
                sound = record {
                  bounded = got.bounded;
                  are_bytes = got.are_bytes;
                  counted = inr (refl, silent_error got.reply got.stored failed);
                };
              }
              | inr fine ↦ record {
                received = record {
                  result = TransportResult.ok;
                  stored = got.reply.copied;
                  out_size = some (count_of got.reply.received);
                };
                driver = got.driver;
                bus_state = got.world;
                returns = rw (on, answer, fine);
                keeps = got.keeps;
                sound = record {
                  bounded = got.bounded;
                  are_bytes = got.are_bytes;
                  counted = inl (refl, ap some (counted_reply got.reply got.stored));
                };
              }
            ]
      ]
