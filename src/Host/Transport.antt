-- ===== src/Host/Transport.antt =====
-- apps/desktop/src/transport_usb.cpp: the host's side of the transport interface of
-- shared/protocol/include/protocol/transport.h, on top of libusb.
--
-- The functions of libusb are the record `Libusb` over an abstract state `W`, with `C` for contexts
-- and `H` for device handles. `int` is 32 bits and `size_t` 64 bits.
pub mod Laws
use psp_dev_link.Base.{
  ℕ, ◌+◌, ◌-◌, ◌%◌, ◌^◌, List, [], Option, none, some, ℤ, pos, negsuc, is_neg, Bool, true, false,
  ltb, ◌==◌, if◌then◌else◌,
}
use psp_dev_link.Transport.{TransportResult}

-- What a bulk transfer from the device gives: its result, `transferred` and the bytes stored.
pub record BulkIn : Type 0 where
  pub code : ℤ
  pub transferred : ℤ
  pub stored : List ℕ

pub record Libusb (C H W : Type 0) : Type 0 where
  -- The result, and what the pointer to the context holds afterwards.
  pub init : Option C → W → ℤ × Option C × W
  pub set_option : Option C → W → W
  pub exit : Option C → W → W
  pub open_device : Option C → W → Option H × W
  pub close : H → W → W
  pub kernel_driver_active : H → W → ℤ × W
  pub detach_kernel_driver : H → W → ℤ × W
  pub claim_interface : H → W → ℤ × W
  pub release_interface : H → W → W
  -- The result and `transferred`.
  pub bulk_out : H → List ℕ → ℤ → W → ℤ × ℤ × W
  pub bulk_in : H → ℤ → W → BulkIn × W

-- `g_usb_handle` and `g_usb_ctx`
pub record Usb (C H : Type 0) : Type 0 where
  pub handle : Option H
  pub ctx : Option C

abbrev pub int_of_size : ℕ → ℤ
int_of_size n =
    if ltb (n % 2 ^ 32) (2 ^ 31) then pos (n % 2 ^ 32) else negsuc (2 ^ 32 - n % 2 ^ 32 - 1)

abbrev pub size_of_int : ℤ → ℕ
size_of_int (pos n) = n
size_of_int (negsuc n) = 2 ^ 64 - (n + 1)

abbrev pub is_one : ℤ → Bool
is_one (pos n) = n == 1
is_one (negsuc n) = false

-- `LIBUSB_ERROR_TIMEOUT` is -7.
abbrev pub is_timeout : ℤ → Bool
is_timeout (pos n) = false
is_timeout (negsuc n) = n == 6

-- What a call gives: its result, the globals and the state of libusb.
pub record Called (C H W : Type 0) : Type 0 where
  pub result : TransportResult
  pub usb : Usb C H
  pub after : W

-- What `transport_receive` gives, with the value of `*received`.
pub record HostReceived : Type 0 where
  pub result : TransportResult
  pub received : ℕ
  pub stored : List ℕ

-- A result from a transfer's code and counts.
unfoldable pub received_of : BulkIn → HostReceived
received_of b =
    if is_neg b.code
    then (if is_timeout b.code
        then record {
          result = TransportResult.ok;
          received = size_of_int b.transferred;
          stored = b.stored;
        }
        else record { result = TransportResult.error; received = 0; stored = b.stored })
    else record {
      result = TransportResult.ok;
      received = size_of_int b.transferred;
      stored = b.stored;
    }

-- The result of a send of `size` bytes.
unfoldable pub sent_of : ℤ → ℤ → ℕ → TransportResult
sent_of code transferred size =
    if is_neg code
    then TransportResult.error
    else if size_of_int transferred == size
    then TransportResult.ok
    else TransportResult.error

module _ {C H W : Type 0} (lib : Libusb C H W) where
  open lib use {
    init, set_option, exit, open_device, close, kernel_driver_active, detach_kernel_driver,
    claim_interface, release_interface, bulk_out, bulk_in,
  }

  abbrev pub closed : Usb C H
  closed = record { handle = none; ctx = none }

  -- The device is closed and the context is left, after an error.
  unfoldable pub give_up : H → Option C → W → Called C H W
  give_up h ctx w = record {
    result = TransportResult.error;
    usb = closed;
    after = exit ctx (close h w);
  }

  unfoldable pub claim : H → Option C → W → Called C H W
  unfolding give_up
  claim h ctx w =
      let (r, w1) = claim_interface h w in
      if is_neg r then give_up h ctx w1 else record {
        result = TransportResult.ok;
        usb = record { handle = some h; ctx = ctx };
        after = w1;
      }

  unfoldable pub detach : H → Option C → W → Called C H W
  unfolding give_up claim
  detach h ctx w =
      let (active, w1) = kernel_driver_active h w in
      let (r, w2) = detach_kernel_driver h w1 in
      if is_one active
      then (if is_neg r then give_up h ctx w2 else claim h ctx w2)
      else claim h ctx w1

  -- The device that was opened, if it was.
  unfoldable pub opened : Option H → Option C → W → Called C H W
  unfolding detach
  opened none ctx w = record { result = TransportResult.error; usb = closed; after = exit ctx w }
  opened (some h) ctx w = detach h ctx w

  unfoldable pub initialize_from : Option H → Option C → W → Called C H W
  unfolding opened
  initialize_from (some h) ctx w = record {
    result = TransportResult.ok;
    usb = record { handle = some h; ctx = ctx };
    after = w;
  }
  initialize_from none ctx w =
      let (r, ctx1, w1) = init ctx w in
      let (device, w2) = open_device ctx1 (set_option ctx1 w1) in
      if is_neg r
      then record {
        result = TransportResult.error;
        usb = record { handle = none; ctx = ctx1 };
        after = w1;
      }
      else opened device ctx1 w2

  unfoldable pub transport_initialize : Usb C H → W → Called C H W
  unfolding initialize_from
  transport_initialize u w = initialize_from u.handle u.ctx w

  unfoldable pub release : Option H → W → W
  release none w = w
  release (some h) w = close h (release_interface h w)

  unfoldable pub leave : Option C → W → W
  leave none w = w
  leave (some c) w = exit (some c) w

  unfoldable pub transport_shutdown : Usb C H → W → Called C H W
  unfolding release leave
  transport_shutdown u w = record {
    result = TransportResult.ok;
    usb = closed;
    after = leave u.ctx (release u.handle w);
  }

  unfoldable pub send_on : Option H → List ℕ → ℕ → W → TransportResult × W
  unfolding sent_of
  send_on none bytes size w = (TransportResult.error, w)
  send_on (some h) bytes size w =
      let (r, transferred, w1) = bulk_out h bytes (int_of_size size) w in
      (sent_of r transferred size, w1)

  unfoldable pub transport_send : List ℕ → ℕ → Usb C H → W → TransportResult × W
  unfolding send_on
  transport_send bytes size u w = send_on u.handle bytes size w

  -- The callers pass a place for `received`.
  unfoldable pub receive_on : Option H → ℕ → W → HostReceived × W
  unfolding received_of
  receive_on none size w = (record { result = TransportResult.error; received = 0; stored = [] }, w)
  receive_on (some h) size w = let (b, w1) = bulk_in h (int_of_size size) w in (received_of b, w1)

  unfoldable pub transport_receive : ℕ → Usb C H → W → HostReceived × W
  unfolding receive_on
  transport_receive size u w = receive_on u.handle size w
