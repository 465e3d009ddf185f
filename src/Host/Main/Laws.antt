-- ===== src/Host/Main/Laws.antt =====
-- What an iteration of apps/desktop/src/main.cpp leaves behind.
use psp_dev_link.Base.{
  ℕ, ◌≤◌, ◌<◌, ◌^◌, ◌≡◌, refl, List, Option, some, length, codes, Bool, true, false, if◌then◌else◌,
  if_intro, inl, inr, arith,
}
use psp_dev_link.App.Payload.{is_ok}
use psp_dev_link.Host.Http.{check_and_clear_exit, check_and_clear_reboot, update_connection_state}
use psp_dev_link.Host.Http.Laws.{add_log-bounded}
use psp_dev_link.Host.Frames.Laws.{control_frame_lem}
use psp_dev_link.Host.Main.Link.{HostLink, SoundHostLink}
use psp_dev_link.Host.Main.{
  ConnectionState, Host, Inputs, Flow, goes_on, continues, lose, send_or_lose, send_command,
  poll_commands, search_device,
}
use psp_dev_link.Host.Main.Loop.{proceed}

abbrev pub is_open : ConnectionState → Bool
is_open ConnectionState.disconnected = false
is_open _ = true

abbrev pub IsHost : Host → Type 0
IsHost h = length h.server.logs ≤ 100

module _ {T : Type 0} (link : HostLink T) (sound : SoundHostLink link) where
  open sound use {Valid, initializes, sends, receives, shuts_down}

  -- The device is open exactly outside the disconnected state.
  abbrev pub IsValid : Host → T → Type 0
  IsValid h t = IsHost h × Valid (is_open h.state) t

  -- In a given state.
  abbrev pub InState : ConnectionState → Host → T → Type 0
  InState s h t = (h.state ≡ s) × IsHost h × Valid (is_open s) t

  abbrev pub Ends : (Host → T → Type 0) → Flow T → Type 0
  Ends P (goes_on h t) = P h t
  Ends P (continues h t) = InState ConnectionState.disconnected h t

  abbrev pub Connected : Host → T → Type 0
  Connected = InState ConnectionState.connected

  abbrev pub Handshaking : Host → T → Type 0
  Handshaking = InState ConnectionState.handshaking

  -- Handshaking or connected.
  abbrev pub Open : Host → T → Type 0
  Open h t = (is_open h.state ≡ true) × IsHost h × Valid true t

  -- A part of an iteration that comes to its end: it goes on with a property, or is disconnected.
  pub record Runs (P : Host → T → Type 0) (result : Option (Flow T)) : Type 0 where
    pub flow : Flow T
    pub returns : result ≡ some flow
    pub valid : Ends P flow

  abbrev pub run : (P : Host → T → Type 0) (flow : Flow T) → Ends P flow → Runs P (some flow)
  run P flow v = record { flow = flow; returns = refl; valid = v }

  pub stays : (P : Host → T → Type 0) (h : Host) (t : T) → P h t → Runs P (some (goes_on h t))
  stays P h t v = run P (goes_on h t) v

  proceed_flow :
      (P Q : Host → T → Type 0) (flow : Flow T) (next : Host → T → Option (Flow T))
      → Ends P flow
      → ((h : Host) (t : T) → P h t → Runs Q (next h t))
      → Runs Q (proceed (some flow) next)
  unfolding proceed
  proceed_flow P Q (goes_on h t) next v k = k h t v
  proceed_flow P Q (continues h t) next v k = run Q (continues h t) v

  pub proceed-Runs :
      (P Q : Host → T → Type 0) (r : Option (Flow T)) (next : Host → T → Option (Flow T))
      → Runs P r
      → ((h : Host) (t : T) → P h t → Runs Q (next h t))
      → Runs Q (proceed r next)
  proceed-Runs P Q r next ok k = rw ok.returns (proceed_flow P Q ok.flow next ok.valid k)

  pub lose-Ends :
      (P : Host → T → Type 0) (msg : List ℕ) (h : Host) (t : T)
      → IsHost h
      → Valid true t
      → Ends P (lose link msg h t)
  unfolding lose
  lose-Ends P msg h t ok open_device =
      (refl, add_log-bounded msg (codes "error") h.server ok, shuts_down t open_device)

  pub send_or_lose-Runs :
      (P : Host → T → Type 0) (msg bytes : List ℕ) (frame : Option (List ℕ)) (after : Host → Host)
      (h : Host) (t : T)
      → frame ≡ some bytes
      → length bytes < 2 ^ 31
      → IsHost h
      → Valid true t
      → ((t' : T) → Valid true t' → P (after h) t')
      → Runs P (send_or_lose link msg frame after h t)
  unfolding send_or_lose
  send_or_lose-Runs P msg bytes frame after h t built short ok open_device k =
      let sent = sends bytes (length bytes) t (omega arith) short open_device in
      rw built (
        run P _ (
          if_intro (Ends P) (is_ok (link.send bytes (length bytes) t).0) _ _
            (k (link.send bytes (length bytes) t).1 sent)
            (lose-Ends P msg h (link.send bytes (length bytes) t).1 ok sent)))

  abbrev pub connected : ConnectionState
  connected = ConnectionState.connected

  send_command-Runs :
      (command : ℕ) (msg : List ℕ) (h : Host) (t : T)
      → InState connected h t
      → Runs (InState connected) (send_command link command msg h t)
  unfolding send_command
  send_command-Runs command msg h t (up, ok, open_device) = rw (control_frame_lem command) (
      run (InState connected) _ (
        up,
        add_log-bounded msg (codes "info") h.server ok,
        sends _ 13 t (omega arith) (omega arith) open_device,
      ))

  pub poll_commands-Runs :
      (h : Host) (t : T) → InState connected h t → Runs (InState connected) (poll_commands link h t)
  unfolding poll_commands check_and_clear_exit check_and_clear_reboot
  poll_commands-Runs h t ok =
      if_intro (Runs (InState connected)) h.server.trigger_exit _ _ (send_command-Runs 1 _ _ t ok) (
        if_intro (Runs (InState connected)) h.server.trigger_reboot _ _
          (send_command-Runs 2 _ _ t ok) (run (InState connected) _ ok))

  pub search_device-Runs :
      (i : Inputs) (h : Host) (t : T)
      → InState ConnectionState.disconnected h t
      → Runs (InState ConnectionState.handshaking) (some (search_device link i h t))
  unfolding search_device update_connection_state
  search_device-Runs i h t (down, ok, nothing) = elim (initializes t nothing) [
    | inl (worked, open_device) ↦ rw worked (
        run (InState ConnectionState.handshaking) _ (
          refl,
          add_log-bounded (codes "PSP Connected. Handshaking...") (codes "info")
              (update_connection_state (codes "HANDSHAKING")
                (update_connection_state (codes "DISCONNECTED") h.server))
              ok,
          open_device,
        ))
    | inr (failed, nothing') ↦
        rw failed (run (InState ConnectionState.handshaking) _ (down, ok, nothing'))
  ]

  -- A frame that is sent if it is due, after something was noted.
  pub send_if_due :
      (P : Host → T → Type 0) (due : Bool) (msg bytes : List ℕ) (frame : Option (List ℕ))
      (after : Host → Host) (told h : Host) (t : T)
      → frame ≡ some bytes
      → length bytes < 2 ^ 31
      → IsHost told
      → Valid true t
      → ((t' : T) → Valid true t' → P (after told) t')
      → P h t
      → Runs P (if due then send_or_lose link msg frame after told t else some (goes_on h t))
  send_if_due P due msg bytes frame after told h t built short ok open_device k v =
      if_intro (Runs P) due _ _
        (send_or_lose-Runs P msg bytes frame after told t built short ok open_device k)
        (stays P h t v)
