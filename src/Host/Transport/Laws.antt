-- ===== src/Host/Transport/Laws.antt =====
-- The resources of libusb that apps/desktop/src/transport_usb.cpp holds.
use psp_dev_link.Base.{
  ℕ, ◌+◌, ◌≤◌, ◌<◌, ◌≡◌, ◌⊎◌, refl, sym, List, Option, none, some, ℤ, pos, is_neg, true, false,
  if_intro, Bool-cases, inl, inr, arith, length,
}
use psp_dev_link.Wire.{IsBytes}
use psp_dev_link.Transport.{TransportResult}
use psp_dev_link.Host.Transport.{
  Libusb, Usb, Called, give_up, claim, detach, opened, initialize_from, transport_initialize,
  release, leave, transport_shutdown, is_one, size_of_int,
}

abbrev pub held : {A : Type 0} → Option A → ℕ
held none = 0
held (some a) = 1

-- What libusb's documentation says of contexts and handles: how many there are after a call. A
-- context may be left only when there is one and no handle is open, and a handle may be closed only
-- when one is open: of any other call nothing is known.
pub record CountsResources {C H W : Type 0} (lib : Libusb C H W) : Type 1 where
  pub contexts : W → ℕ
  pub handles : W → ℕ
  pub init_ok :
      (c : Option C) (w : W)
      → is_neg (lib.init c w).0 ≡ false
      → (held (lib.init c w).1 ≡ 1)
        × (contexts (lib.init c w).2 ≡ contexts w + 1)
        × (handles (lib.init c w).2 ≡ handles w)
  pub init_fails :
      (c : Option C) (w : W)
      → is_neg (lib.init c w).0 ≡ true
      → (held (lib.init c w).1 ≡ held c)
        × (contexts (lib.init c w).2 ≡ contexts w)
        × (handles (lib.init c w).2 ≡ handles w)
  pub exits :
      (c : Option C) (w : W)
      → 0 < contexts w
      → handles w ≡ 0
      → (contexts (lib.exit c w) + 1 ≡ contexts w) × (handles (lib.exit c w) ≡ 0)
  pub opens :
      (c : Option C) (w : W)
      → (contexts (lib.open_device c w).1 ≡ contexts w)
        × (handles (lib.open_device c w).1 ≡ handles w + held (lib.open_device c w).0)
  pub closes :
      (h : H) (w : W)
      → 0 < handles w
      → (contexts (lib.close h w) ≡ contexts w) × (handles (lib.close h w) + 1 ≡ handles w)
  pub sets :
      (c : Option C) (w : W)
      → (contexts (lib.set_option c w) ≡ contexts w) × (handles (lib.set_option c w) ≡ handles w)
  pub asks :
      (h : H) (w : W)
      → (contexts (lib.kernel_driver_active h w).1 ≡ contexts w)
        × (handles (lib.kernel_driver_active h w).1 ≡ handles w)
  pub detaches :
      (h : H) (w : W)
      → (contexts (lib.detach_kernel_driver h w).1 ≡ contexts w)
        × (handles (lib.detach_kernel_driver h w).1 ≡ handles w)
  pub claims :
      (h : H) (w : W)
      → (contexts (lib.claim_interface h w).1 ≡ contexts w)
        × (handles (lib.claim_interface h w).1 ≡ handles w)
  pub releases :
      (h : H) (w : W)
      → (contexts (lib.release_interface h w) ≡ contexts w)
        × (handles (lib.release_interface h w) ≡ handles w)
  pub sends :
      (h : H) (bytes : List ℕ) (n : ℤ) (w : W)
      → (contexts (lib.bulk_out h bytes n w).2 ≡ contexts w)
        × (handles (lib.bulk_out h bytes n w).2 ≡ handles w)
  -- A transfer stores bytes, and no more than were asked for, and counts no more.
  pub receives :
      (h : H) (n : ℕ) (w : W)
      → (contexts (lib.bulk_in h (pos n) w).1 ≡ contexts w)
        × (handles (lib.bulk_in h (pos n) w).1 ≡ handles w)
        × (length (lib.bulk_in h (pos n) w).0.stored ≤ n)
        × IsBytes (lib.bulk_in h (pos n) w).0.stored
        × (size_of_int (lib.bulk_in h (pos n) w).0.transferred ≤ n)

module _ {C H W : Type 0} (lib : Libusb C H W) (counts : CountsResources lib) where
  open counts use {
    contexts, handles, init_ok, init_fails, exits, opens, closes, sets, asks, detaches, claims,
    releases,
  }

  -- The globals hold a handle and a context, or neither, and libusb has no others open.
  pub record Balanced (u : Usb C H) (w : W) : Type 0 where
    pub both : held u.handle ≡ held u.ctx
    pub no_context_leaks : contexts w ≡ held u.ctx
    pub no_handle_leaks : handles w ≡ held u.handle

  -- A result tells whether the device is open, and nothing is left open otherwise.
  pub record Connects (c : Called C H W) : Type 0 where
    pub balanced : Balanced c.usb c.after
    pub tells :
        ((c.result ≡ TransportResult.ok) × (held c.usb.handle ≡ 1))
        ⊎ ((c.result ≡ TransportResult.error) × (held c.usb.handle ≡ 0))

  give_up-Connects :
      (h : H) (ctx : Option C) (w : W)
      → contexts w ≡ 1
      → handles w ≡ 1
      → Connects (give_up lib h ctx w)
  unfolding give_up
  give_up-Connects h ctx w one_ctx one_handle =
      let (c0, h0) = closes h w (omega (arith, one_handle)) in
      let w1 = lib.close h w in
      let has_context : 0 < contexts w1 = omega (arith, c0, one_ctx) in
      let (c1, h1) = exits ctx w1 has_context (omega (arith, h0, one_handle)) in
      record {
        balanced = record {
          both = refl;
          no_context_leaks = omega (arith, c0, c1, one_ctx);
          no_handle_leaks = h1;
        };
        tells = inr (refl, refl);
      }

  claim-Connects :
      (h : H) (ctx : Option C) (w : W)
      → held ctx ≡ 1
      → contexts w ≡ 1
      → handles w ≡ 1
      → Connects (claim lib h ctx w)
  unfolding claim
  claim-Connects h ctx w has one_ctx one_handle =
      let (c0, h0) = claims h w in
      let w1 = (lib.claim_interface h w).1 in
      let same_ctx : contexts w1 ≡ 1 = omega (arith, c0, one_ctx) in
      let same_handle : handles w1 ≡ 1 = omega (arith, h0, one_handle) in
      if_intro Connects (is_neg (lib.claim_interface h w).0) _ _
        (give_up-Connects h ctx w1 same_ctx same_handle)
        (record {
          balanced = record {
            both = sym has;
            no_context_leaks = omega (arith, same_ctx, has);
            no_handle_leaks = same_handle;
          };
          tells = inl (refl, refl);
        })

  detach-Connects :
      (h : H) (ctx : Option C) (w : W)
      → held ctx ≡ 1
      → contexts w ≡ 1
      → handles w ≡ 1
      → Connects (detach lib h ctx w)
  unfolding detach
  detach-Connects h ctx w has one_ctx one_handle =
      let (c0, h0) = asks h w in
      let w1 = (lib.kernel_driver_active h w).1 in
      let (c1, h1) = detaches h w1 in
      let w2 = (lib.detach_kernel_driver h w1).1 in
      let ctx1 : contexts w1 ≡ 1 = omega (arith, c0, one_ctx) in
      let handle1 : handles w1 ≡ 1 = omega (arith, h0, one_handle) in
      let ctx2 : contexts w2 ≡ 1 = omega (arith, c1, ctx1) in
      let handle2 : handles w2 ≡ 1 = omega (arith, h1, handle1) in
      if_intro Connects (is_one (lib.kernel_driver_active h w).0) _ _
        (if_intro Connects (is_neg (lib.detach_kernel_driver h w1).0) _ _
          (give_up-Connects h ctx w2 ctx2 handle2) (claim-Connects h ctx w2 has ctx2 handle2))
        (claim-Connects h ctx w1 has ctx1 handle1)

  opened-Connects :
      (device : Option H) (ctx : Option C) (w : W)
      → held ctx ≡ 1
      → contexts w ≡ 1
      → handles w ≡ held device
      → Connects (opened lib device ctx w)
  unfolding opened
  opened-Connects none ctx w has one_ctx none_open =
      let (c0, h0) = exits ctx w (omega (arith, one_ctx)) none_open in
      record {
        balanced = record {
          both = refl;
          no_context_leaks = omega (arith, c0, one_ctx);
          no_handle_leaks = h0;
        };
        tells = inr (refl, refl);
      }
  opened-Connects (some h) ctx w has one_ctx one_handle =
      detach-Connects h ctx w has one_ctx one_handle

  initialize_from-Connects :
      (device : Option H) (ctx : Option C) (w : W)
      → Balanced (record { handle = device; ctx = ctx }) w
      → Connects (initialize_from lib device ctx w)
  unfolding initialize_from
  initialize_from-Connects (some h) ctx w ok = record { balanced = ok; tells = inl (refl, refl) }
  initialize_from-Connects none ctx w ok =
      let u : held ctx ≡ 0 = sym ok.both in
      let cs : contexts w ≡ held ctx = ok.no_context_leaks in
      let hs : handles w ≡ 0 = ok.no_handle_leaks in
      elim (Bool-cases (is_neg (lib.init ctx w).0)) [
        | inl failed ↦
            let (p, c, h) = init_fails ctx w failed in
            rw failed (record {
              balanced = record {
                both = omega (arith, p, u);
                no_context_leaks = omega (arith, c, cs, p);
                no_handle_leaks = omega (arith, h, hs);
              };
              tells = inr (refl, refl);
            })
        | inr started ↦
            let (p, c, h) = init_ok ctx w started in
            let ctx1 = (lib.init ctx w).1 in
            let w1 = (lib.init ctx w).2 in
            let (c1, h1) = sets ctx1 w1 in
            let (c2, h2) = opens ctx1 (lib.set_option ctx1 w1) in
            rw started (
              opened-Connects (lib.open_device ctx1 (lib.set_option ctx1 w1)).0 ctx1
                (lib.open_device ctx1 (lib.set_option ctx1 w1)).1 p
                (omega (arith, c, c1, c2, u, cs)) (omega (arith, h, h1, h2, hs)))
      ]

  -- From globals that hold all that libusb has open, an attempt to connect ends with a handle and
  -- a context, both stored, exactly if it reports success; each way to fail closes the handle and
  -- leaves the context again.
  pub transport_initialize-Connects :
      (u : Usb C H) (w : W) → Balanced u w → Connects (transport_initialize lib u w)
  unfolding transport_initialize
  transport_initialize-Connects u w ok = initialize_from-Connects u.handle u.ctx w ok

  leave_all :
      (ctx : Option C) (w : W)
      → contexts w ≡ held ctx
      → handles w ≡ 0
      → (contexts (leave lib ctx w) ≡ 0) × (handles (leave lib ctx w) ≡ 0)
  unfolding leave
  leave_all none w c h = (c, h)
  leave_all (some x) w c h =
      let (c0, h0) = exits (some x) w (omega (arith, c)) h in (omega arith, h0)

  release_all :
      (device : Option H) (ctx : Option C) (w : W)
      → contexts w ≡ held ctx
      → handles w ≡ held device
      → (contexts (leave lib ctx (release lib device w)) ≡ 0)
        × (handles (leave lib ctx (release lib device w)) ≡ 0)
  unfolding release
  release_all none ctx w c h = leave_all ctx w c h
  release_all (some d) ctx w c h =
      let (c0, h0) = releases d w in
      let w1 = lib.release_interface d w in
      let one_handle : 0 < handles w1 = omega (arith, h0, h) in
      let (c1, h1) = closes d w1 one_handle in
      leave_all ctx (lib.close d (lib.release_interface d w)) (omega arith) (omega arith)

  -- A shutdown leaves nothing open, whether or not there was a connection, and always succeeds.
  pub transport_shutdown-Balanced :
      (u : Usb C H) (w : W)
      → Balanced u w
      → Balanced (transport_shutdown lib u w).usb (transport_shutdown lib u w).after
        × ((transport_shutdown lib u w).result ≡ TransportResult.ok)
        × (contexts (transport_shutdown lib u w).after ≡ 0)
        × (handles (transport_shutdown lib u w).after ≡ 0)
  unfolding transport_shutdown
  transport_shutdown-Balanced u w ok =
      let (nc, nh) = release_all u.handle u.ctx w ok.no_context_leaks ok.no_handle_leaks in
      (record { both = refl; no_context_leaks = nc; no_handle_leaks = nh }, refl, nc, nh)
