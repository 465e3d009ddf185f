-- ===== src/Driver.antt =====
-- apps/psp/driver/pspdl_driver_kernel.c, with apps/psp/driver/pspdl_ioctl.h: the kernel driver that
-- carries bulk transfers between the user-mode application and the USB bus.
--
-- The functions of the PSP kernel that the driver calls are the record `UsbBus` over an abstract
-- state `W` of the kernel. `none` is an access outside an array.
pub mod Descriptors
pub mod Enumeration
pub mod Laws
pub mod Registration
mod Tests
use psp_dev_link.Base.{
  ℕ, ◌+◌, ◌-◌, ◌≤◌, ◌<◌, ◌≡◌, List, [], ◌∷◌, ◌++◌, Option, none, some, ℤ, pos, negsuc, is_neg,
  ◌>>=◌, length, take, drop, replicate, Bool, true, false, not, ltb, leb, ◌==◌, ◌&&◌, if◌then◌else◌,
}
use psp_dev_link.Router.{is_zero}
use Descriptors.{UsbData, UsbDriver, cleared, fill_hi, fill_full, set_pointers, unset_driver}

abbrev pub usb_event_attach : ℕ
usb_event_attach = 0x01

abbrev pub usb_event_detach : ℕ
usb_event_detach = 0x02

abbrev pub buffer_size : ℕ
buffer_size = 8192

-- `sizeof(struct pspdl_send_args)` and `sizeof(struct pspdl_recv_args)` with the PSP's 32-bit
-- pointers.
abbrev pub send_args_size : ℕ
send_args_size = 8

abbrev pub recv_args_size : ℕ
recv_args_size = 12

-- What a bulk request reports: its result, `recvsize`, and the bytes that arrived.
pub record Transfer : Type 0 where
  pub ret : ℤ
  pub recvsize : ℤ
  pub arrived : List ℕ

-- What `sceKernelDcacheWritebackRange` is given: one of three globals as a whole, or this many
-- bytes of `g_tx_buf`.
pub data CacheRange : Type 0 where
  usbdata endp intp : CacheRange
  tx_buf : ℕ → CacheRange

pub record UsbBus (W : Type 0) : Type 0 where
  pub create_event_flag : W → ℤ × W
  pub set_event_flag : ℤ → ℕ → W → W
  pub delete_event_flag : ℤ → W → W
  pub writeback : CacheRange → W → W
  pub invalidate : ℤ → W → W
  pub bbd_register : W → ℤ × W
  pub bbd_unregister : W → W
  pub req_send : List ℕ → W → Transfer × W
  pub req_recv : ℤ → W → Transfer × W
  pub add_drv : W → W
  pub del_drv : W → W

pub record Driver : Type 0 where
  pub usb_event : ℤ
  pub registered : Bool
  pub usb_driver : UsbDriver
  pub data_hi : UsbData
  pub data_full : UsbData
  pub tx_buf : List ℕ
  pub rx_buf : List ℕ

-- `struct pspdl_send_args` and `struct pspdl_recv_args`; of the latter's pointers only
-- `received` is compared with NULL.
pub record SendArgs : Type 0 where
  pub bytes : List ℕ
  pub size : ℤ

pub record RecvArgs : Type 0 where
  pub size : ℤ
  pub has_received : Bool

-- The command of an ioctl with its `indata` and `inlen`.
pub data Request : Type 0 where
  init : Request
  send : Option SendArgs → ℕ → Request
  recv : Option RecvArgs → ℕ → Request
  shutdown : Request
  other : ℕ → Request

-- The value returned, and what was stored through `buf` and `received`.
pub record Reply : Type 0 where
  pub ret : ℤ
  pub copied : List ℕ
  pub received : Option ℤ

abbrev pub plain : ℤ → Reply
plain r = record { ret = r; copied = []; received = none }

-- `memcpy(dst, src, n)`; a negative `n` is an enormous `size_t`.
unfoldable pub memcpy : ℤ → List ℕ → List ℕ → Option (List ℕ)
memcpy (negsuc n) src dst = none
memcpy (pos n) src dst =
    if leb n (length src) && leb n (length dst) then some (take n src ++ drop n dst) else none

-- `if (size > (int)sizeof(buf)) size = sizeof(buf);`
abbrev pub clip : ℤ → ℤ
clip (pos n) = if ltb buffer_size n then pos buffer_size else pos n
clip (negsuc n) = negsuc n

-- The bytes that `memcpy(a->buf, g_rx_buf, n)` stores.
unfoldable pub copy_out : ℤ → List ℕ → Option (List ℕ)
copy_out (negsuc n) src = none
copy_out (pos n) src = if leb n (length src) then some (take n src) else none

-- `n > 0`
abbrev pub is_pos : ℤ → Bool
is_pos (pos n) = ltb 0 n
is_pos (negsuc n) = false

-- The bytes of a transfer land at the start of the receive buffer, by direct memory access.
unfoldable pub dma : List ℕ → List ℕ → Option (List ℕ)
dma bs buf = if leb (length bs) (length buf) then some (bs ++ drop (length bs) buf) else none

module _ {W : Type 0} (bus : UsbBus W) where
  open bus use {
    create_event_flag, set_event_flag, delete_event_flag, writeback, invalidate, bbd_register,
    bbd_unregister, req_send, req_recv, add_drv, del_drv,
  }

  unfoldable pub usb_attach : Driver → W → ℤ × W
  usb_attach d w =
      (pos 0, if is_neg d.usb_event then w else set_event_flag d.usb_event usb_event_attach w)

  unfoldable pub usb_detach : Driver → W → ℤ × W
  usb_detach d w =
      (pos 0, if is_neg d.usb_event then w else set_event_flag d.usb_event usb_event_detach w)

  -- The event flag is created once; the descriptors are filled in anew; three ranges are flushed.
  unfoldable pub start_func : Driver → W → ℤ × Driver × W
  start_func d w =
      let made = create_event_flag w in
      let event = if is_neg d.usb_event then made.0 else d.usb_event in
      let w' = if is_neg d.usb_event then made.1 else w in
      (
        pos 0,
        record d {
          usb_event = event;
          data_hi = fill_hi cleared;
          data_full = fill_full cleared;
          usb_driver = set_pointers d.usb_driver;
        },
        writeback CacheRange.intp (writeback CacheRange.endp (writeback CacheRange.usbdata w')),
      )

  unfoldable pub stop_func : Driver → W → ℤ × Driver × W
  stop_func d w =
      if is_neg d.usb_event
      then (pos 0, d, w)
      else (pos 0, record d { usb_event = negsuc 0 }, delete_event_flag d.usb_event w)

  unfoldable pub ioctl_init : Driver → W → Reply × Driver × W
  ioctl_init d w =
      let (ret, w') = bbd_register w in
      if d.registered
      then (plain (pos 0), d, w)
      else if is_neg ret
      then (plain ret, d, w')
      else (plain (pos 0), record d { registered = true }, w')

  unfoldable pub ioctl_send : SendArgs → Driver → W → Option (Reply × Driver × W)
  ioctl_send a d w = do
    let size = clip a.size
    filled ← memcpy size a.bytes d.tx_buf
    out ← copy_out size filled
    let (done, w') = req_send out (writeback (CacheRange.tx_buf (length out)) w)
    some (
      plain (if is_zero done.ret then done.recvsize else done.ret),
      record d { tx_buf = filled },
      w',
    )

  unfoldable pub ioctl_recv : RecvArgs → Driver → W → Option (Reply × Driver × W)
  ioctl_recv a d w = do
    let size = clip a.size
    let (done, w') = req_recv size (invalidate size w)
    filled ← dma done.arrived d.rx_buf
    let got = is_zero done.ret && is_pos done.recvsize
    let taken = copy_out done.recvsize filled
    copied ← (if got then taken else some [])
    let reply : Reply = record {
      ret = if is_neg done.ret then done.ret else pos 0;
      copied = copied;
      received = if got && a.has_received then some done.recvsize else none;
    }
    some (reply, record d { rx_buf = filled }, w')

  unfoldable pub ioctl_shutdown : Driver → W → Reply × Driver × W
  ioctl_shutdown d w =
      if d.registered
      then (plain (pos 0), record d { registered = false }, bbd_unregister w)
      else (plain (pos 0), d, w)

  unfoldable pub io_ioctl : Request → Driver → W → Option (Reply × Driver × W)
  unfolding ioctl_init ioctl_send ioctl_recv ioctl_shutdown
  io_ioctl Request.init d w = some (ioctl_init d w)
  io_ioctl (Request.send none inlen) d w = some (plain (negsuc 0), d, w)
  io_ioctl (Request.send (some a) inlen) d w =
      if inlen == send_args_size then ioctl_send a d w else some (plain (negsuc 0), d, w)
  io_ioctl (Request.recv none inlen) d w = some (plain (negsuc 0), d, w)
  io_ioctl (Request.recv (some a) inlen) d w =
      if inlen == recv_args_size then ioctl_recv a d w else some (plain (negsuc 0), d, w)
  io_ioctl Request.shutdown d w = some (ioctl_shutdown d w)
  io_ioctl (Request.other cmd) d w = some (plain (negsuc 0), d, w)

  unfoldable pub module_start : Driver → W → ℤ × Driver × W
  module_start d w = (pos 0, d, add_drv w)

  unfoldable pub module_stop : Driver → W → ℤ × Driver × W
  module_stop d w =
      if d.registered
      then (pos 0, record d { registered = false }, del_drv (bbd_unregister w))
      else (pos 0, d, del_drv w)

-- The driver as it is loaded.
abbrev pub loaded_driver : Driver
loaded_driver = record {
  usb_event = negsuc 0;
  registered = false;
  usb_driver = unset_driver;
  data_hi = Descriptors.cleared;
  data_full = Descriptors.cleared;
  tx_buf = replicate 8192 0;
  rx_buf = replicate 8192 0;
}

-- The buffers have their sizes.
pub record IsDriver (d : Driver) : Type 0 where
  pub tx_size : length d.tx_buf ≡ buffer_size
  pub rx_size : length d.rx_buf ≡ buffer_size
