-- ===== src/Host/Main/Usb.antt =====
-- The transport of apps/desktop/src/transport_usb.cpp on libusb, as the link of the loop of
-- apps/desktop/src/main.cpp.
use psp_dev_link.Base.{
  ℕ, ◌%◌, ◌^◌, ◌≤◌, ◌<◌, ◌≡◌, ◌⊎◌, sym, ◌∙◌, List, Option, none, some, pos, length, Bool, true,
  false, ltb, if◌then◌else◌, if_intro, inl, inr, arith, is_neg,
}
use psp_dev_link.Wire.{IsBytes}
use psp_dev_link.Transport.{TransportResult}
use psp_dev_link.Host.Transport.{
  Libusb, Usb, BulkIn, HostReceived, int_of_size, size_of_int, received_of, is_timeout,
  transport_initialize, transport_send, send_on, transport_receive, receive_on, transport_shutdown,
}
use psp_dev_link.Host.Transport.Laws.{
  CountsResources, Balanced, held, transport_initialize-Connects, transport_shutdown-Balanced,
}
use psp_dev_link.Host.Main.Link.{HostLink, SoundHostLink}
use psp_dev_link.Host.Main.{Host, Inputs}
use psp_dev_link.Host.Main.Loop.{iterate}
use psp_dev_link.Host.Main.Laws.{IsHost, Runs, is_open}
use psp_dev_link.Host.Main.Iteration.{iterate-Runs}
use psp_dev_link.Host.Main.Laws.{Open}

-- The globals of the transport with the state of libusb behind them.
abbrev pub HostUsb : Type 0 → Type 0 → Type 0 → Type 0
HostUsb C H W = Usb C H × W

-- A size of less than 2 ^ 31 stays itself as an `int`.
small_int : (n : ℕ) → n < 2 ^ 31 → int_of_size n ≡ pos n
small_int n small =
    let same : n % 2 ^ 32 ≡ n = omega arith in
    let fits : ltb n (2 ^ 31) ≡ true = ground (arith, small) in rw (same, fits)

-- What is received of a transfer is what it stored, and no more is counted than it counts.
received_of-bounded :
    (b : BulkIn) (n : ℕ)
    → length b.stored ≤ n
    → IsBytes b.stored
    → size_of_int b.transferred ≤ n
    → (length (received_of b).stored ≤ n)
      × IsBytes (received_of b).stored
      × ((received_of b).received ≤ n)
unfolding received_of
received_of-bounded b n few bytes counted =
    if_intro Fine (is_neg b.code) _ _
      (if_intro Fine (is_timeout b.code) _ _ (few, bytes, counted) (few, bytes, omega arith))
      (few, bytes, counted)
  where
    Fine : HostReceived → Type 0
    Fine r = (length r.stored ≤ n) × IsBytes r.stored × (r.received ≤ n)

module _ {C H W : Type 0} (lib : Libusb C H W) (counts : CountsResources lib) where
  abbrev pub usb_host : HostLink (HostUsb C H W)
  usb_host = record {
    initialize = λ (u, w). (
      (transport_initialize lib u w).result,
      ((transport_initialize lib u w).usb, (transport_initialize lib u w).after),
    );
    send = λ bytes n (u, w).
        ((transport_send lib bytes n u w).0, (u, (transport_send lib bytes n u w).1));
    receive = λ n (u, w). ((transport_receive lib n u w).0, (u, (transport_receive lib n u w).1));
    shutdown = λ (u, w). ((transport_shutdown lib u w).usb, (transport_shutdown lib u w).after);
  }

  -- The globals hold all that is open, and a device if and only if the flag is set.
  abbrev pub HoldsDevice : Bool → HostUsb C H W → Type 0
  HoldsDevice b (u, w) = Balanced lib counts u w × (held u.handle ≡ (if b then 1 else 0))

  pub initializes :
      (t : HostUsb C H W)
      → HoldsDevice false t
      → (((usb_host.initialize t).0 ≡ TransportResult.ok)
          × HoldsDevice true (usb_host.initialize t).1)
        ⊎ (((usb_host.initialize t).0 ≡ TransportResult.error)
            × HoldsDevice false (usb_host.initialize t).1)
  initializes (u, w) (ok, nothing) =
      let c = transport_initialize-Connects lib counts u w ok in
      elim c.tells [
        | inl (worked, device) ↦ inl (worked, (c.balanced, device))
        | inr (failed, closed) ↦ inr (failed, (c.balanced, closed))
      ]

  same_resources :
      (b : Bool) (u : Usb C H) (w w' : W)
      → counts.contexts w' ≡ counts.contexts w
      → counts.handles w' ≡ counts.handles w
      → HoldsDevice b (u, w)
      → HoldsDevice b (u, w')
  same_resources b u w w' cs hs (ok, device) = (
    record {
      both = ok.both;
      no_context_leaks = cs ∙ ok.no_context_leaks;
      no_handle_leaks = hs ∙ ok.no_handle_leaks;
    },
    device,
  )

  sends_on :
      (device : Option H) (ctx : Option C) (bytes : List ℕ) (n : ℕ) (w : W)
      → HoldsDevice true (record { handle = device; ctx = ctx }, w)
      → HoldsDevice true (record { handle = device; ctx = ctx }, (send_on lib device bytes n w).1)
  unfolding send_on
  sends_on none ctx bytes n w ok = ok
  sends_on (some h) ctx bytes n w ok =
      let (cs, hs) = counts.sends h bytes (int_of_size n) w in same_resources true _ w _ cs hs ok

  receives_on :
      (device : Option H) (ctx : Option C) (n : ℕ) (w : W)
      → n < 2 ^ 31
      → HoldsDevice true (record { handle = device; ctx = ctx }, w)
      → HoldsDevice true (record { handle = device; ctx = ctx }, (receive_on lib device n w).1)
        × (length (receive_on lib device n w).0.stored ≤ n)
        × IsBytes (receive_on lib device n w).0.stored
        × ((receive_on lib device n w).0.received ≤ n)
  unfolding receive_on
  receives_on none ctx n w small ok = absurd (omega (arith, ok.1))
  receives_on (some h) ctx n w small ok =
      let (cs, hs, few, bytes, counted) = counts.receives h n w in
      let fine = received_of-bounded (lib.bulk_in h (pos n) w).0 n few bytes counted in
      rw (small_int n small) (same_resources true _ w _ cs hs ok, fine.0, fine.1, fine.2)

  pub sends_to_device :
      (bytes : List ℕ) (n : ℕ) (t : HostUsb C H W)
      → HoldsDevice true t
      → HoldsDevice true (usb_host.send bytes n t).1
  unfolding transport_send
  sends_to_device bytes n (u, w) ok = sends_on u.handle u.ctx bytes n w ok

  pub receives_from_device :
      (n : ℕ) (t : HostUsb C H W)
      → n < 2 ^ 31
      → HoldsDevice true t
      → HoldsDevice true (usb_host.receive n t).1
        × (length (usb_host.receive n t).0.stored ≤ n)
        × IsBytes (usb_host.receive n t).0.stored
        × ((usb_host.receive n t).0.received ≤ n)
  unfolding transport_receive
  receives_from_device n (u, w) small ok = receives_on u.handle u.ctx n w small ok

  pub shuts_device :
      (t : HostUsb C H W) → HoldsDevice true t → HoldsDevice false (usb_host.shutdown t)
  shuts_device (u, w) ok =
      let down = transport_shutdown-Balanced lib counts u w ok.0 in
      (down.0, sym down.0.no_handle_leaks ∙ down.3)

  -- The transport on libusb keeps the promises that the loop relies on.
  abbrev pub usb_host_sound : SoundHostLink usb_host
  usb_host_sound = record {
    Valid = HoldsDevice;
    initializes = initializes;
    sends = λ bytes n t there small ok. sends_to_device bytes n t ok;
    receives = receives_from_device;
    shuts_down = shuts_device;
  }

  -- On libusb, as far as its documentation says how many contexts and handles are open and what a
  -- transfer stores, an iteration of the loop comes to its end from a state in which the globals
  -- hold all that is open, a device exactly if the program is not disconnected, and gives such a
  -- state again: neither a handle nor a context is lost or given back twice, whichever of the calls
  -- fail.
  pub iterate-usb_host :
      (i : Inputs) (h : Host) (u : Usb C H) (w : W)
      → IsHost h
      → HoldsDevice (is_open h.state) (u, w)
      → Runs usb_host usb_host_sound (Open usb_host usb_host_sound) (iterate usb_host i h (u, w))
  iterate-usb_host i h u w few ok = iterate-Runs usb_host usb_host_sound i h (u, w) (few, ok)
