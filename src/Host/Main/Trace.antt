-- ===== src/Host/Main/Trace.antt =====
-- Runs of apps/desktop/src/main.cpp with the requests and notifications that its other threads
-- handle in between.
use psp_dev_link.Base.{ℕ, ◌≡◌, refl, sym, ap, ◌∙◌, List, Option, some, false, arith}
use mathlib.Core.Path.{subst}
use mathlib.Core.Option.{get_or}
use psp_dev_link.Host.System.{CpuTicks}
use psp_dev_link.Host.Config.{File}
use psp_dev_link.Host.Notifications.{Queue, push_mock_notification}
use psp_dev_link.Host.Http.{HttpServer, handle_client}
use psp_dev_link.Host.Http.Requests.{Holds, KeepsLogs, handle_client-KeepsLogs}
use psp_dev_link.Host.Main.Link.{HostLink, SoundHostLink}
use psp_dev_link.Host.Main.{ConnectionState, Host, Inputs, Flow, goes_on, continues, launched}
use psp_dev_link.Host.Main.Loop.{iterate}
use psp_dev_link.Host.Main.Laws.{IsHost, IsValid, Runs, Ends, Open, is_open}
use psp_dev_link.Host.Main.Iteration.{iterate-Runs, IsValid-Open}

module _ {T : Type 0} (link : HostLink T) where
  -- One step of the program: an iteration that goes on or is left early, a request to the
  -- dashboard that is answered, or a notification that the listener queues.
  pub data Step : Host → T → Host → T → Type 0 where
    round :
        (i : Inputs) (h : Host) (t : T) (h' : Host) (t' : T)
        → iterate link i h t ≡ some (goes_on h' t')
        → Step h t h' t'
    restart :
        (i : Inputs) (h : Host) (t : T) (h' : Host) (t' : T)
        → iterate link i h t ≡ some (continues h' t')
        → Step h t h' t'
    request :
        (page buffer : List ℕ) (h : Host) (t : T) (response : Option (List ℕ)) (s : HttpServer)
        → handle_client page buffer h.server ≡ some (response, s)
        → Step h t (record h { server = s }) t
    notified :
        (app title msg : List ℕ) (h : Host) (t : T)
        → Step h t
            (record h { notifications = push_mock_notification app title msg h.notifications })
            t

  -- The states after any number of steps.
  pub data Reach (h : Host) (t : T) : Host → T → Type 0 where
    here : Reach h t h t
    next : {h1 h2 : Host} {t1 t2 : T} → Reach h t h1 t1 → Step h1 t1 h2 t2 → Reach h t h2 t2

launched-starts :
    (f : File) (ticks : Option CpuTicks) (times : ℕ × ℕ × ℕ × ℕ × ℕ) (q : Queue)
    → ((launched f ticks times q).state ≡ ConnectionState.disconnected)
      × IsHost (launched f ticks times q)
unfolding launched
launched-starts f ticks times q = (refl, omega arith)

module _ {T : Type 0} (link : HostLink T) (sound : SoundHostLink link) where
  open sound use {Valid}

  ended :
      (i : Inputs) (h : Host) (t : T) (flow : Flow T)
      → IsValid link sound h t
      → iterate link i h t ≡ some flow
      → Ends link sound (Open link sound) flow
  ended i h t flow ok e =
      let r = iterate-Runs link sound i h t ok in
      subst (Ends link sound (Open link sound)) (ap (λ o. get_or o flow) (sym r.returns ∙ e))
        r.valid

  Step-IsValid :
      {h h' : Host} {t t' : T}
      → Step link h t h' t'
      → IsValid link sound h t
      → IsValid link sound h' t'
  Step-IsValid (round i h t h' t' e) ok =
      IsValid-Open link sound h' t' (ended i h t (goes_on h' t') ok e)
  Step-IsValid (restart i h t h' t' e) ok =
      let (down, few, valid) = ended i h t (continues h' t') ok e in
      (few, subst (λ s. Valid (is_open s) t') (sym down) valid)
  Step-IsValid (request page buffer h t response s e) (few, valid) =
      let same : s.logs ≡ h.server.logs =
        subst (Holds (KeepsLogs h.server)) e (handle_client-KeepsLogs page buffer h.server) in
      (rw same few, valid)
  Step-IsValid (notified app title msg h t) (few, valid) = (few, valid)

  Reach-IsValid :
      {h : Host} {t : T} {h' : Host} {t' : T}
      → IsValid link sound h t
      → Reach link h t h' t'
      → IsValid link sound h' t'
  Reach-IsValid ok here = ok
  Reach-IsValid ok (next r s) = Step-IsValid s (Reach-IsValid ok r)

  -- Whatever the program has done since its start, with the device closed then: the iterations it
  -- has made, whether they were left early or not, the requests that its dashboard has answered in
  -- between and the notifications that have come in. If the transport keeps its promises, a device
  -- is open exactly if the program is not disconnected, the log has at most 100 entries, and one
  -- more iteration comes to its end.
  pub Reach-Runs :
      (f : File) (ticks : Option CpuTicks) (times : ℕ × ℕ × ℕ × ℕ × ℕ) (q : Queue) (t : T)
      (h' : Host) (t' : T) (i : Inputs)
      → Valid false t
      → Reach link (launched f ticks times q) t h' t'
      → IsValid link sound h' t' × Runs link sound (Open link sound) (iterate link i h' t')
  Reach-Runs f ticks times q t h' t' i closed r =
      let (down, few) = launched-starts f ticks times q in
      let begin : IsValid link sound (launched f ticks times q) t =
        (few, subst (λ s. Valid (is_open s) t) (sym down) closed) in
      let ok = Reach-IsValid begin r in (ok, iterate-Runs link sound i h' t' ok)
