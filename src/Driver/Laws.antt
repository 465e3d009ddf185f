-- ===== src/Driver/Laws.antt =====
-- The transfers of apps/psp/driver/pspdl_driver_kernel.c.
use psp_dev_link.Base.{
  ℕ, zero, suc, ◌≤◌, ◌<◌, ◌≡◌, refl, List, [], ◌∷◌, ◌++◌, Option, none, some, ℤ, pos, negsuc,
  is_neg, length, take, drop, Bool, true, false, ltb, ◌&&◌, if◌then◌else◌, Bool-cases, ◌⊎◌, inl,
  inr, length-append, length-take, length-drop, arith, ap, ◌∙◌,
}
use psp_dev_link.Wire.{IsBytes}
use psp_dev_link.Router.{is_zero}
use psp_dev_link.Driver.{
  UsbBus, Driver, Transfer, Request, Reply, plain, buffer_size, send_args_size, recv_args_size,
  memcpy, clip, copy_out, dma, is_pos, CacheRange, io_ioctl, IsDriver,
}

take_prefix : (n : ℕ) (s t : List ℕ) → n ≤ length s → take n (take n s ++ t) ≡ take n s
take_prefix zero s t h = refl
take_prefix (suc n) [] t h = absurd (omega arith)
take_prefix (suc n) (x ∷ s) t h = ap (λ l. x ∷ l) (take_prefix n s t (omega arith))

-- The number of bytes that a request of `n` bytes moves.
abbrev pub limit : ℕ → ℕ
limit n = if ltb buffer_size n then buffer_size else n

clip-limit : (n : ℕ) → clip (pos n) ≡ pos (limit n)
clip-limit n = elim (Bool-cases (ltb buffer_size n)) [ inl e ↦ rw e | inr e ↦ rw e ]

limit_le : (n : ℕ) → (limit n ≤ buffer_size) × (limit n ≤ n)
limit_le n = ground arith

memcpy_lem :
    (k : ℕ) (src dst : List ℕ)
    → k ≤ length src
    → k ≤ length dst
    → memcpy (pos k) src dst ≡ some (take k src ++ drop k dst)
unfolding memcpy
memcpy_lem k src dst a b = ground arith

copy_out_lem : (k : ℕ) (src : List ℕ) → k ≤ length src → copy_out (pos k) src ≡ some (take k src)
unfolding copy_out
copy_out_lem k src h = ground arith

dma_lem :
    (bs buf : List ℕ) → length bs ≤ length buf → dma bs buf ≡ some (bs ++ drop (length bs) buf)
unfolding dma
dma_lem bs buf h = ground arith

copied_prefix :
    (k : ℕ) (src t : List ℕ)
    → k ≤ length src
    → copy_out (pos k) (take k src ++ t) ≡ some (take k src)
copied_prefix k src t h =
    copy_out_lem k (take k src ++ t)
      (omega (arith, length-append (take k src) t, length-take k src))
    ∙ ap some (take_prefix k src t h)

-- On a driver whose buffers have their sizes, a send whose size fits the caller's array puts the
-- array's first bytes, at most 8192 of them, on the bus in one request, stays inside both arrays,
-- and returns the count that the bus reports or the bus's error.
pub ioctl_send_lem :
    {W : Type 0} (bus : UsbBus W) (bytes : List ℕ) (n : ℕ) (d : Driver) (w : W)
    → IsDriver d
    → n ≤ length bytes
    → let out = take (limit n) bytes in
      let (done, w') = bus.req_send out (bus.writeback (CacheRange.tx_buf (limit n)) w) in
      io_ioctl bus (Request.send (some (record { bytes = bytes; size = pos n })) send_args_size) d w
      ≡ some (
        plain (if is_zero done.ret then done.recvsize else done.ret),
        record d { tx_buf = out ++ drop (limit n) d.tx_buf },
        w',
      )
unfolding io_ioctl
ioctl_send_lem bus bytes n d w ok fits = rw (
  clip-limit n,
  memcpy_lem k bytes d.tx_buf (omega (arith, limit_le n)) (omega (arith, limit_le n, ok.tx_size)),
  copied_prefix k bytes (drop k d.tx_buf) (omega (arith, limit_le n)),
  taken,
)
  where
    k : ℕ
    k = limit n

    taken : length (take (limit n) bytes) ≡ limit n
    taken = omega (arith, length-take (limit n) bytes, limit_le n)

-- A send that returns and keeps the driver's buffers.
pub record SendsOut {W : Type 0} (result : Option (Reply × Driver × W)) : Type 0 where
  pub reply : Reply
  pub driver : Driver
  pub world : W
  pub returns : result ≡ some (reply, driver, world)
  pub keeps : IsDriver driver

pub io_ioctl-Sends :
    {W : Type 0} (bus : UsbBus W) (bytes : List ℕ) (n : ℕ) (d : Driver) (w : W)
    → IsDriver d
    → n ≤ length bytes
    → SendsOut (
        io_ioctl bus
          (Request.send (some (record { bytes = bytes; size = pos n })) send_args_size)
          d
          w)
io_ioctl-Sends bus bytes n d w ok fits =
    let out = take (limit n) bytes in
    let done = bus.req_send out (bus.writeback (CacheRange.tx_buf (limit n)) w) in
    record {
      reply = plain (if is_zero done.0.ret then done.0.recvsize else done.0.ret);
      driver = record d { tx_buf = take (limit n) bytes ++ drop (limit n) d.tx_buf };
      world = done.1;
      returns = ioctl_send_lem bus bytes n d w ok fits;
      keeps = record {
        tx_size = omega (
          arith,
          length-append (take (limit n) bytes) (drop (limit n) d.tx_buf),
          length-take (limit n) bytes,
          length-drop (limit n) d.tx_buf,
          limit_le n,
          ok.tx_size,
        );
        rx_size = ok.rx_size;
      };
    }

-- What the PSP's bulk driver documents of a receive request: no more bytes arrive than were asked
-- for, what arrives are bytes, and a request that succeeds reports their number.
pub record BulkOut {W : Type 0} (bus : UsbBus W) : Type 0 where
  pub fits : (n : ℕ) (w : W) → length (bus.req_recv (pos n) w).0.arrived ≤ n
  pub bytes : (n : ℕ) (w : W) → IsBytes (bus.req_recv (pos n) w).0.arrived
  pub counts :
      (n : ℕ) (w : W)
      → (bus.req_recv (pos n) w).0.ret ≡ pos 0
      → (bus.req_recv (pos n) w).0.recvsize ≡ pos (length (bus.req_recv (pos n) w).0.arrived)

-- What a receive of at most `n` bytes gives back.
pub record Receives {W : Type 0} (n : ℕ) (result : Option (Reply × Driver × W)) : Type 0 where
  pub reply : Reply
  pub driver : Driver
  pub world : W
  pub returns : result ≡ some (reply, driver, world)
  pub keeps : IsDriver driver
  pub bounded : length reply.copied ≤ n
  pub are_bytes : IsBytes reply.copied
  -- Either bytes were stored and their count with them, or nothing was.
  pub stored :
      ((reply.ret ≡ pos 0)
        × (reply.received ≡ some (pos (length reply.copied)))
        × (0 < length reply.copied))
      ⊎ ((reply.copied ≡ []) × (reply.received ≡ none))
  pub sign : (is_neg reply.ret ≡ true) ⊎ (reply.ret ≡ pos 0)

is_zero_sound : (z : ℤ) → is_zero z ≡ true → z ≡ pos 0
is_zero_sound (pos n) e = ground arith
is_zero_sound (negsuc n) e = cc

and-left : (a b : Bool) → (a && b) ≡ true → a ≡ true
and-left true b e = refl
and-left false b e = cc

and-right : (a b : Bool) → (a && b) ≡ true → b ≡ true
and-right true b e = e
and-right false b e = cc

copy_arrived : (bs t : List ℕ) → copy_out (pos (length bs)) (bs ++ t) ≡ some bs
copy_arrived bs t =
    copy_out_lem (length bs) (bs ++ t) (omega (arith, length-append bs t)) ∙ ap some (take_all bs t)
  where
    take_all : (s t : List ℕ) → take (length s) (s ++ t) ≡ s
    take_all [] t = refl
    take_all (x ∷ s) t = ap (λ l. x ∷ l) (take_all s t)

positive_count : (z : ℤ) (k : ℕ) → z ≡ pos k → is_pos z ≡ true → 0 < k
positive_count z k e h = let h' : is_pos (pos k) ≡ true = rw e at h in ground arith

sign_of :
    (z : ℤ)
    → (is_neg (if is_neg z then z else pos 0) ≡ true) ⊎ ((if is_neg z then z else pos 0) ≡ pos 0)
sign_of (pos n) = inr refl
sign_of (negsuc n) = inl refl

module _ {W : Type 0} (bus : UsbBus W) (laws : BulkOut bus) (n : ℕ) (d : Driver) (w : W)
    (ok : IsDriver d) where
  asked : ℕ
  asked = limit n

  transfer : Transfer × W
  transfer = bus.req_recv (pos (limit n)) (bus.invalidate (pos (limit n)) w)

  arrived_fits : length transfer.0.arrived ≤ limit n
  unfolding transfer
  arrived_fits = laws.fits (limit n) (bus.invalidate (pos (limit n)) w)

  filled_size :
      length (transfer.0.arrived ++ drop (length transfer.0.arrived) d.rx_buf) ≡ buffer_size
  filled_size = omega (
    arith,
    length-append transfer.0.arrived (drop (length transfer.0.arrived) d.rx_buf),
    length-drop (length transfer.0.arrived) d.rx_buf,
    ok.rx_size,
    arrived_fits,
    limit_le n,
  )

  landed :
      dma transfer.0.arrived d.rx_buf
      ≡ some (transfer.0.arrived ++ drop (length transfer.0.arrived) d.rx_buf)
  landed = dma_lem transfer.0.arrived d.rx_buf (omega (arith, ok.rx_size, arrived_fits, limit_le n))

  filled_driver : Driver
  filled_driver = record d {
    rx_buf = transfer.0.arrived ++ drop (length transfer.0.arrived) d.rx_buf;
  }

  filled-IsDriver : IsDriver filled_driver
  unfolding filled_driver
  filled-IsDriver = record { tx_size = ok.tx_size; rx_size = filled_size }

  -- On a driver whose buffers have their sizes, a receive request of any size that is not
  -- negative, with a place for the count, returns, stays inside the driver's buffer, stores at
  -- most the bytes asked for through the caller's pointer, and stores their count if and only if
  -- it stores any: a failed or empty transfer touches neither. The result is negative or 0. This
  -- rests on what `BulkOut` says of the bus.
  pub io_ioctl-Receives : Receives n (
      io_ioctl bus
        (Request.recv (some (record { size = pos n; has_received = true })) recv_args_size)
        d
        w)
  unfolding io_ioctl transfer filled_driver
  io_ioctl-Receives = elim (Bool-cases (is_zero transfer.0.ret && is_pos transfer.0.recvsize)) [
    | inr idle ↦ record {
      reply = record {
        ret = if is_neg transfer.0.ret then transfer.0.ret else pos 0;
        copied = [];
        received = none;
      };
      driver = filled_driver;
      world = transfer.1;
      returns = rw (clip-limit n, landed, idle);
      keeps = filled-IsDriver;
      bounded = omega arith;
      are_bytes = tt;
      stored = inr (refl, refl);
      sign = sign_of transfer.0.ret;
    }
    | inl got ↦
        let ret_zero : transfer.0.ret ≡ pos 0 = is_zero_sound transfer.0.ret (and-left _ _ got) in
        let count : transfer.0.recvsize ≡ pos (length transfer.0.arrived) =
          laws.counts (limit n) (bus.invalidate (pos (limit n)) w) ret_zero in
        record {
          reply = record {
            ret = pos 0;
            copied = transfer.0.arrived;
            received = some (pos (length transfer.0.arrived));
          };
          driver = filled_driver;
          world = transfer.1;
          returns = rw (
            clip-limit n,
            landed,
            got,
            count,
            copy_arrived transfer.0.arrived (drop (length transfer.0.arrived) d.rx_buf),
            ret_zero,
          );
          keeps = filled-IsDriver;
          bounded = omega (arith, arrived_fits, limit_le n);
          are_bytes = laws.bytes (limit n) (bus.invalidate (pos (limit n)) w);
          stored = inl (refl, refl, positive_count transfer.0.recvsize _ count (and-right _ _ got));
          sign = inr refl;
        }
  ]
