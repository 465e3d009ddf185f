-- ===== src/Transport.antt =====
-- apps/psp/src/transport_usb.c: the PSP's side of the transport interface of
-- shared/protocol/include/protocol/transport.h, on top of the kernel driver.
--
-- The functions of the PSP kernel are the record `Kernel` over an abstract state `W`. The status
-- text that `snprintf` writes is kept as the message and the codes in it.
pub mod Laws
mod Tests
use psp_dev_link.Base.{
  ℕ, ◌-◌, ◌<◌, ◌≤◌, ◌≡◌, ◌⊎◌, length, ◌^◌, ◌+◌, List, [], Option, none, some, ℤ, pos, negsuc,
  is_neg, ◌>>=◌, Bool, true, false, ltb, ◌||◌, if◌then◌else◌,
}
use psp_dev_link.Wire.{IsBytes}
use psp_dev_link.Driver.{Request, Reply, SendArgs, RecvArgs, send_args_size, recv_args_size}
use psp_dev_link.Driver.Descriptors.{usb_product_id}

pub data TransportResult : Type 0 where
  ok not_implemented error : TransportResult

-- `g_status_msg`, by the call that wrote it.
pub data StatusMessage : Type 0 where
  initializing : StatusMessage
  prx_load_fail prx_start_fail io_open_fail usb_reg_fail : ℤ → StatusMessage
  usb_err : ℤ → ℤ → ℤ → StatusMessage
  waiting_for_host : StatusMessage

pub record Kernel (W : Type 0) : Type 0 where
  pub io_open : W → ℤ × W
  pub load_module : W → ℤ × W
  pub start_module : ℤ → W → ℤ × W
  pub ioctl : ℤ → Request → W → Option (Reply × W)
  pub usb_start_bus : W → ℤ × W
  pub usb_start_driver : W → ℤ × W
  pub delay_thread : ℕ → W → W
  pub usb_activate : ℕ → W → ℤ × W

pub record Transport : Type 0 where
  pub driver_mod : ℤ
  pub io_fd : ℤ
  pub mock_mode : Bool
  pub status_msg : StatusMessage

abbrev pub initial_transport : Transport
initial_transport = record {
  driver_mod = negsuc 0;
  io_fd = negsuc 0;
  mock_mode = false;
  status_msg = StatusMessage.initializing;
}

-- The conversions between `size_t` and `int` of a 32-bit machine.
abbrev pub int_of_size : ℕ → ℤ
int_of_size n = if ltb n (2 ^ 31) then pos n else negsuc (2 ^ 32 - n - 1)

abbrev pub size_of_int : ℤ → ℕ
size_of_int (pos n) = n
size_of_int (negsuc n) = 2 ^ 32 - (n + 1)

-- `received`, an `int` that is 0 until the driver stores a count, as a `size_t`.
abbrev pub count_of : Option ℤ → ℕ
count_of none = 0
count_of (some z) = size_of_int z

-- What `transport_receive` gives: its result, the bytes stored from the start of `buffer` on, and
-- the value stored in `*out_size`, if it was.
pub record Received : Type 0 where
  pub result : TransportResult
  pub stored : List ℕ
  pub out_size : Option ℕ

-- A receive of at most `n` bytes: no more are stored, they are bytes, and what is counted is what was stored.
pub record IsReceived (n : ℕ) (r : Received) : Type 0 where
  pub bounded : length r.stored ≤ n
  pub are_bytes : IsBytes r.stored
  pub counted :
      ((r.result ≡ TransportResult.ok) × (r.out_size ≡ some (length r.stored)))
      ⊎ ((r.out_size ≡ none) × (r.stored ≡ []))

abbrev pub mock : StatusMessage → Transport → Transport
mock m t = record t { status_msg = m; mock_mode = true }

module _ {W : Type 0} (k : Kernel W) where
  open k use {
    io_open, load_module, start_module, ioctl, usb_start_bus, usb_start_driver, delay_thread,
    usb_activate,
  }

  -- From the INIT ioctl on.
  unfoldable pub bring_up : Transport → W → Option (TransportResult × Transport × W)
  bring_up t w = do
    (init, w1) ← ioctl t.io_fd Request.init w
    let (bus, w2) = usb_start_bus w1
    let (drv, w3) = usb_start_driver w2
    let (act, w5) = usb_activate usb_product_id (delay_thread 200000 w3)
    let failed = is_neg bus || is_neg drv || is_neg act
    let status =
        if failed then StatusMessage.usb_err bus drv act else StatusMessage.waiting_for_host
    if is_neg init.ret
        then some (TransportResult.ok, mock (StatusMessage.usb_reg_fail init.ret) t, w1)
        else some (TransportResult.ok, record t { status_msg = status }, w5)

  -- The driver's module is loaded and started if the device cannot be opened at once.
  unfoldable pub load_driver : Transport → W → Option (TransportResult × Transport × W)
  unfolding bring_up
  load_driver t w =
      let (driver_mod, w1) = load_module w in
      let t1 : Transport = record t { driver_mod = driver_mod } in
      let (started, w2) = start_module driver_mod w1 in
      let (fd, w3) = io_open w2 in
      let t3 : Transport = record t1 { io_fd = fd } in
      let up = bring_up t3 w3 in
      if is_neg driver_mod
      then some (TransportResult.ok, mock (StatusMessage.prx_load_fail driver_mod) t1, w1)
      else if is_neg started
      then some (TransportResult.ok, mock (StatusMessage.prx_start_fail started) t1, w2)
      else if is_neg fd
      then some (TransportResult.ok, mock (StatusMessage.io_open_fail fd) t3, w3)
      else up

  unfoldable pub transport_initialize : Transport → W → Option (TransportResult × Transport × W)
  unfolding bring_up load_driver
  transport_initialize t w =
      let (fd, w1) = io_open w in
      let t1 : Transport = record t { io_fd = fd } in
      if is_neg fd then load_driver t1 w1 else bring_up t1 w1

  unfoldable pub transport_send :
      List ℕ → ℕ → Transport → W → Option (TransportResult × Transport × W)
  transport_send bytes size t w =
      let request =
        Request.send (some (record { bytes = bytes; size = int_of_size size })) send_args_size in
      let sent = ioctl t.io_fd request w >>= λ (r, w').
      some ((if is_neg r.ret then TransportResult.error else TransportResult.ok), t, w') in
      if t.mock_mode || is_neg t.io_fd then some (TransportResult.ok, t, w) else sent

  -- The callers pass a place for `out_size`.
  unfoldable pub transport_receive : ℕ → Transport → W → Option (Received × Transport × W)
  transport_receive size t w =
      let request =
        Request.recv (some (record { size = int_of_size size; has_received = true }))
          recv_args_size in
      let fetched = ioctl t.io_fd request w >>= λ (r, w').
      (let refused : Received = record {
        result = TransportResult.error;
        stored = r.copied;
        out_size = none;
      } in
        let taken : Received = record {
          result = TransportResult.ok;
          stored = r.copied;
          out_size = some (count_of r.received);
        } in
        some ((if is_neg r.ret then refused else taken), t, w')) in
      let silent : Received = record {
        result = TransportResult.ok;
        stored = [];
        out_size = none;
      } in
      if t.mock_mode || is_neg t.io_fd then some (silent, t, w) else fetched

  -- Nothing is torn down.
  unfoldable pub transport_shutdown : Transport → W → TransportResult × Transport × W
  transport_shutdown t w = (TransportResult.ok, t, w)
