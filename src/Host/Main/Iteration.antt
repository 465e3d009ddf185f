-- ===== src/Host/Main/Iteration.antt =====
-- A whole iteration of apps/desktop/src/main.cpp.
use psp_dev_link.Base.{
  ◌≡◌, refl, sym, ap, ◌∙◌, Option, some, Bool, true, false, if◌then◌else◌, Bool-cases, inl, inr,
  arith,
}
use mathlib.Core.Path.{subst}
use psp_dev_link.Host.Main.Link.{HostLink, SoundHostLink}
use psp_dev_link.Host.Main.{
  ConnectionState, Host, Inputs, Flow, goes_on, continues, poll_commands, search_device,
}
use psp_dev_link.Host.Main.Loop.{
  handshake, work, iterate, is_connected, is_handshaking, is_disconnected,
}
use psp_dev_link.Host.Main.Laws.{
  InState, IsValid, Runs, proceed-Runs, stays, poll_commands-Runs, search_device-Runs, is_open,
  Ends,
}
use psp_dev_link.Host.Main.Laws.{Connected, Handshaking, Open}
use psp_dev_link.Host.Main.Work.{work-Runs}
use psp_dev_link.Host.Main.Shake.{handshake-Runs}

is_connected→eq : (s : ConnectionState) → is_connected s ≡ true → s ≡ ConnectionState.connected
is_connected→eq ConnectionState.connected h = refl
is_connected→eq ConnectionState.handshaking h = absurd (ground (arith, h))
is_connected→eq ConnectionState.disconnected h = absurd (ground (arith, h))

is_handshaking→eq :
    (s : ConnectionState) → is_handshaking s ≡ true → s ≡ ConnectionState.handshaking
is_handshaking→eq ConnectionState.connected h = absurd (ground (arith, h))
is_handshaking→eq ConnectionState.handshaking h = refl
is_handshaking→eq ConnectionState.disconnected h = absurd (ground (arith, h))

is_disconnected→eq :
    (s : ConnectionState) → is_disconnected s ≡ true → s ≡ ConnectionState.disconnected
is_disconnected→eq ConnectionState.connected h = absurd (ground (arith, h))
is_disconnected→eq ConnectionState.handshaking h = absurd (ground (arith, h))
is_disconnected→eq ConnectionState.disconnected h = refl

is_disconnected-is_open : (s : ConnectionState) → is_disconnected s ≡ false → is_open s ≡ true
is_disconnected-is_open ConnectionState.connected h = refl
is_disconnected-is_open ConnectionState.handshaking h = refl
is_disconnected-is_open ConnectionState.disconnected h = absurd (ground (arith, h))

module _ {T : Type 0} (link : HostLink T) (sound : SoundHostLink link) where
  open sound use {Valid, initializes, sends, receives, shuts_down}

  weaken :
      (P Q : Host → T → Type 0) (r : Option (Flow T))
      → ((h : Host) (t : T) → P h t → Q h t)
      → Runs link sound P r
      → Runs link sound Q r
  weaken P Q r le ok = record {
    flow = ok.flow;
    returns = ok.returns;
    valid = ended ok.flow ok.valid;
  }
    where
      ended : (f : Flow T) → Ends link sound P f → Ends link sound Q f
      ended (goes_on h t) v = le h t v
      ended (continues h t) v = v

  -- What holds in a valid state is known of the state that it is.
  in_state :
      (s : ConnectionState) (h : Host) (t : T)
      → h.state ≡ s
      → IsValid link sound h t
      → InState link sound s h t
  in_state s h t e (ok, valid) = (e, ok, subst (λ r. Valid (is_open r) t) e valid)

  InState-Open :
      (s : ConnectionState) (h : Host) (t : T)
      → is_open s ≡ true
      → InState link sound s h t
      → (Open link sound) h t
  InState-Open s h t up (e, ok, valid) = (ap is_open e ∙ up, ok, subst (λ b. Valid b t) up valid)

  pub IsValid-Open : (h : Host) (t : T) → (Open link sound) h t → IsValid link sound h t
  IsValid-Open h t (up, ok, valid) = (ok, subst (λ b. Valid b t) (sym up) valid)

  choose :
      (P : Host → T → Type 0) (b : Bool) (r r' : Option (Flow T))
      → (b ≡ true → Runs link sound P r)
      → (b ≡ false → Runs link sound P r')
      → Runs link sound P (if b then r else r')
  choose P b r r' if_so if_not = elim (Bool-cases b) [
    | inl t ↦ rw t (if_so t)
    | inr f ↦ rw f (if_not f)
  ]

  polled-Runs :
      (h : Host) (t : T)
      → IsValid link sound h t
      → Runs link sound
          (IsValid link sound)
          (if is_connected h.state then poll_commands link h t else some (goes_on h t))
  polled-Runs h t ok =
      choose (IsValid link sound) (is_connected h.state) _ _
        (λ up.
          weaken (Connected link sound) (IsValid link sound) (poll_commands link h t)
            (λ h' t' c. IsValid-Open h' t' (InState-Open ConnectionState.connected h' t' refl c))
            (poll_commands-Runs link sound h t
              (in_state ConnectionState.connected h t (is_connected→eq h.state up) ok)))
        (λ other. stays link sound (IsValid link sound) h t ok)

  searched-Runs :
      (i : Inputs) (h : Host) (t : T)
      → IsValid link sound h t
      → Runs link sound
          (Open link sound)
          (if is_disconnected h.state then some (search_device link i h t) else some (goes_on h t))
  searched-Runs i h t (ok, valid) =
      choose (Open link sound) (is_disconnected h.state) _ _
        (λ down.
          weaken (Handshaking link sound) (Open link sound) (some (search_device link i h t))
            (λ h' t'. InState-Open ConnectionState.handshaking h' t' refl)
            (search_device-Runs link sound i h t (
              in_state ConnectionState.disconnected h t (is_disconnected→eq h.state down)
                (ok, valid))))
        (λ up.
          let e = is_disconnected-is_open h.state up in
          stays link sound (Open link sound) h t (e, ok, subst (λ b. Valid b t) e valid))

  shaken-Runs :
      (i : Inputs) (h : Host) (t : T)
      → (Open link sound) h t
      → Runs link sound
          (Open link sound)
          (if is_handshaking h.state then handshake link i h t else some (goes_on h t))
  shaken-Runs i h t ok =
      choose (Open link sound) (is_handshaking h.state) _ _
        (λ busy. handshake-Runs link sound i h t (
          in_state ConnectionState.handshaking h t (is_handshaking→eq h.state busy)
            (IsValid-Open h t ok)))
        (λ other. stays link sound (Open link sound) h t ok)

  worked-Runs :
      (i : Inputs) (h : Host) (t : T)
      → (Open link sound) h t
      → Runs link sound
          (Open link sound)
          (if is_connected h.state then work link i h t else some (goes_on h t))
  worked-Runs i h t ok =
      choose (Open link sound) (is_connected h.state) _ _
        (λ up.
          weaken (Connected link sound) (Open link sound) (work link i h t)
            (λ h' t'. InState-Open ConnectionState.connected h' t' refl)
            (work-Runs link sound i h t (
              in_state ConnectionState.connected h t (is_connected→eq h.state up)
                (IsValid-Open h t ok))))
        (λ other. stays link sound (Open link sound) h t ok)

  -- From a state that is valid, an iteration of the loop comes to its end on a transport that keeps
  -- its promises, whatever the clock, the services and the device give. If it runs to its end the
  -- program is handshaking or connected and the device is open; if it is left early, after a failed
  -- search, send or receive, the program is disconnected and nothing is open any more. The log has
  -- at most 100 entries in either case.
  pub iterate-Runs :
      (i : Inputs) (h : Host) (t : T)
      → IsValid link sound h t
      → Runs link sound (Open link sound) (iterate link i h t)
  unfolding iterate
  iterate-Runs i h t ok =
      proceed-Runs link sound (IsValid link sound) (Open link sound) _ _ (polled-Runs h t ok)
        (λ h1 t1 ok1.
          proceed-Runs link sound (Open link sound) (Open link sound) _ _
            (searched-Runs i h1 t1 ok1)
            (λ h2 t2 ok2.
              proceed-Runs link sound (Open link sound) (Open link sound) _ _
                (shaken-Runs i h2 t2 ok2) (λ h3 t3 ok3. worked-Runs i h3 t3 ok3)))
