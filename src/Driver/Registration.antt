-- ===== src/Driver/Registration.antt =====
-- The registration of apps/psp/driver/pspdl_driver_kernel.c with the bus, over a session of ioctls.
use psp_dev_link.Base.{
  ℕ, suc, ◌+◌, ◌≡◌, List, [], Option, none, some, ℤ, is_neg, ◌>>=◌, false, ◌==◌, ◌&&◌,
  if◌then◌else◌, if_intro, length, arith,
}
use mathlib.Core.Path.{subst}
use psp_dev_link.Router.{is_zero}
use psp_dev_link.Driver.{
  UsbBus, Driver, SendArgs, RecvArgs, Request, Reply, io_ioctl, ioctl_init, ioctl_send, ioctl_recv,
  ioctl_shutdown, module_stop, send_args_size, recv_args_size, clip, memcpy, copy_out, dma, is_pos,
  Transfer, CacheRange,
}

-- An observer of the bus that counts successful registrations and unregistrations, as the bus
-- documents them; no other call of the driver is either.
pub record Counts {W : Type 0} (bus : UsbBus W) : Type 0 where
  pub registrations : W → ℕ
  pub unregistrations : W → ℕ
  pub register_counts :
      (w : W)
      → (registrations (bus.bbd_register w).1
          ≡ (if is_neg (bus.bbd_register w).0 then registrations w else suc (registrations w)))
        × (unregistrations (bus.bbd_register w).1 ≡ unregistrations w)
  pub unregister_counts :
      (w : W)
      → (registrations (bus.bbd_unregister w) ≡ registrations w)
        × (unregistrations (bus.bbd_unregister w) ≡ suc (unregistrations w))
  pub send_counts :
      (bs : List ℕ) (w : W)
      → (registrations (bus.req_send bs w).1 ≡ registrations w)
        × (unregistrations (bus.req_send bs w).1 ≡ unregistrations w)
  pub recv_counts :
      (n : ℤ) (w : W)
      → (registrations (bus.req_recv n w).1 ≡ registrations w)
        × (unregistrations (bus.req_recv n w).1 ≡ unregistrations w)
  pub writeback_counts :
      (n : CacheRange) (w : W)
      → (registrations (bus.writeback n w) ≡ registrations w)
        × (unregistrations (bus.writeback n w) ≡ unregistrations w)
  pub invalidate_counts :
      (n : ℤ) (w : W)
      → (registrations (bus.invalidate n w) ≡ registrations w)
        × (unregistrations (bus.invalidate n w) ≡ unregistrations w)
  pub del_drv_counts :
      (w : W)
      → (registrations (bus.del_drv w) ≡ registrations w)
        × (unregistrations (bus.del_drv w) ≡ unregistrations w)

module _ {W : Type 0} (bus : UsbBus W) (c : Counts bus) where
  open c use {registrations, unregistrations}

  -- Registered or not, as 1 or 0.
  abbrev held : Driver → ℕ
  held d = if d.registered then 1 else 0

  -- The registrations that are not undone are the one that the flag stands for.
  abbrev pub IsBalanced : Driver → W → Type 0
  IsBalanced d w = registrations w ≡ unregistrations w + held d

  -- The flag and the bus agree after a result, if there is one.
  abbrev pub Balanced : Option (Reply × Driver × W) → Type 0
  Balanced none = Unit
  Balanced (some (r, d, w)) = IsBalanced d w

  ioctl_init-Balanced : (d : Driver) (w : W) → IsBalanced d w → Balanced (some (ioctl_init bus d w))
  unfolding ioctl_init
  ioctl_init-Balanced d w h = ground (arith, c.register_counts w)

  ioctl_shutdown-Balanced :
      (d : Driver) (w : W) → IsBalanced d w → Balanced (some (ioctl_shutdown bus d w))
  unfolding ioctl_shutdown
  ioctl_shutdown-Balanced d w h = ground (arith, c.unregister_counts w)

  bind-Balanced :
      {A : Type 0} (m : Option A) (f : A → Option (Reply × Driver × W))
      → ((a : A) → Balanced (f a))
      → Balanced (m >>= f)
  bind-Balanced none f h = tt
  bind-Balanced (some a) f h = h a

  ioctl_send-Balanced :
      (a : SendArgs) (d : Driver) (w : W) → IsBalanced d w → Balanced (ioctl_send bus a d w)
  unfolding ioctl_send
  ioctl_send-Balanced a d w h =
      bind-Balanced (memcpy (clip a.size) a.bytes d.tx_buf) _
        λ filled. bind-Balanced (copy_out (clip a.size) filled) _ λ out. after out
    where
      after :
          (out : List ℕ)
          → IsBalanced d (bus.req_send out (bus.writeback (CacheRange.tx_buf (length out)) w)).1
      after out = omega (
        arith,
        h,
        c.send_counts out (bus.writeback (CacheRange.tx_buf (length out)) w),
        c.writeback_counts (CacheRange.tx_buf (length out)) w,
      )

  ioctl_recv-Balanced :
      (a : RecvArgs) (d : Driver) (w : W) → IsBalanced d w → Balanced (ioctl_recv bus a d w)
  unfolding ioctl_recv
  ioctl_recv-Balanced a d w h = bind-Balanced (dma done.arrived d.rx_buf) _ λ filled.
      bind-Balanced
        (if is_zero done.ret && is_pos done.recvsize
          then copy_out done.recvsize filled
          else some [])
        _ λ copied. after
    where
      done : Transfer
      done = (bus.req_recv (clip a.size) (bus.invalidate (clip a.size) w)).0

      after : IsBalanced d (bus.req_recv (clip a.size) (bus.invalidate (clip a.size) w)).1
      after = omega (
        arith,
        h,
        c.recv_counts (clip a.size) (bus.invalidate (clip a.size) w),
        c.invalidate_counts (clip a.size) w,
      )

  io_ioctl-Balanced :
      (q : Request) (d : Driver) (w : W) → IsBalanced d w → Balanced (io_ioctl bus q d w)
  unfolding io_ioctl
  io_ioctl-Balanced Request.init d w h = ioctl_init-Balanced d w h
  io_ioctl-Balanced (Request.send none inlen) d w h = h
  io_ioctl-Balanced (Request.send (some a) inlen) d w h =
      if_intro Balanced (inlen == send_args_size) _ _ (ioctl_send-Balanced a d w h) h
  io_ioctl-Balanced (Request.recv none inlen) d w h = h
  io_ioctl-Balanced (Request.recv (some a) inlen) d w h =
      if_intro Balanced (inlen == recv_args_size) _ _ (ioctl_recv-Balanced a d w h) h
  io_ioctl-Balanced Request.shutdown d w h = ioctl_shutdown-Balanced d w h
  io_ioctl-Balanced (Request.other cmd) d w h = h

  -- A session of the driver: one ioctl after another.
  pub data Session : Driver → W → Driver → W → Type 0 where
    here : {d : Driver} {w : W} → Session d w d w
    next :
        {d d' d'' : Driver} {w w' w'' : W} (q : Request) (r : Reply)
        → Session d w d' w'
        → io_ioctl bus q d' w' ≡ some (r, d'', w'')
        → Session d w d'' w''

  Session-Balanced :
      {d d' : Driver} {w w' : W} → Session d w d' w' → IsBalanced d w → IsBalanced d' w'
  Session-Balanced here h = h
  Session-Balanced (next {d' = d'} {w' = w'} q r s e) h =
      subst Balanced e (io_ioctl-Balanced q d' w' (Session-Balanced s h))

  -- On a bus that counts registrations as `Counts` says, from a balanced state, after any session
  -- of ioctls the bus holds the driver exactly if the flag says so (at most once, therefore), and
  -- unloading the module then leaves no registration behind.
  pub module_stop-balances :
      {d d' : Driver} {w w' : W}
      → Session d w d' w'
      → IsBalanced d w
      → IsBalanced d' w'
        × (registrations (module_stop bus d' w').2 ≡ unregistrations (module_stop bus d' w').2)
        × ((module_stop bus d' w').1.registered ≡ false)
  unfolding module_stop
  module_stop-balances {d' = d'} {w' = w'} s h =
      let b = Session-Balanced s h in (b, stopped b, cleared_flag)
    where
      stopped :
          IsBalanced d' w'
          → registrations (module_stop bus d' w').2 ≡ unregistrations (module_stop bus d' w').2
      stopped b = ground (
        arith,
        c.unregister_counts w',
        c.del_drv_counts w',
        c.del_drv_counts (bus.bbd_unregister w'),
      )

      cleared_flag : (module_stop bus d' w').1.registered ≡ false
      cleared_flag = ground arith
