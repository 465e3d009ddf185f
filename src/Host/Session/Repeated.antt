-- ===== src/Host/Session/Repeated.antt =====
-- A host that has started anew and repeats its HELLO, of apps/desktop/src/main.cpp, to a console of
-- apps/psp/src/main.c that takes itself to be connected still.
use psp_dev_link.Base.{ℕ, ◌≤◌, List, [], ◌∷◌, Option, some, ◌>>=◌}
use psp_dev_link.App.{App, watchdog, receive_packet}
use psp_dev_link.App.Connection.{silent_iterations}
use psp_dev_link.App.Payload.{Link}

-- Every number is at most 499: the iterations without a packet before each HELLO, of 10 ms each.
abbrev pub AreShort : List ℕ → Type 0
AreShort [] = Unit
AreShort (k ∷ ks) = (k ≤ 499) × AreShort ks

-- The link after a function of it for each element of the list.
abbrev pub for_each : {P : Type 0} → List ℕ → (P → P) → P → P
for_each [] after p = p
for_each (k ∷ ks) after p = for_each ks after (after p)

module _ {P : Type 0} (psp : Link P) where
  -- For each number, as many iterations without a packet, which leave the link as it is, and an
  -- iteration that receives one.
  abbrev pub packet_rounds : List ℕ → App → P → Option (App × P)
  packet_rounds [] a p = some (a, p)
  packet_rounds (k ∷ ks) a p = receive_packet psp (silent_iterations k a) p >>= λ (got, p').
      packet_rounds ks (watchdog got) p'
