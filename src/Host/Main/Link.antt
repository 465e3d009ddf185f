-- ===== src/Host/Main/Link.antt =====
-- The transport as apps/desktop/src/main.cpp uses it, and what it relies on.
use psp_dev_link.Base.{ℕ, ◌≤◌, ◌<◌, ◌^◌, ◌≡◌, ◌⊎◌, List, length, Bool, true, false}
use psp_dev_link.Wire.{IsBytes}
use psp_dev_link.Transport.{TransportResult}
use psp_dev_link.Host.Transport.{HostReceived}

-- `transport_initialize`, `transport_send`, `transport_receive` and `transport_shutdown`.
pub record HostLink (T : Type 0) : Type 0 where
  pub initialize : T → TransportResult × T
  pub send : List ℕ → ℕ → T → TransportResult × T
  pub receive : ℕ → T → HostReceived × T
  pub shutdown : T → T

-- The transport's promises: `Valid true` holds while the device is open, `Valid false` while
-- nothing is.
pub record SoundHostLink {T : Type 0} (link : HostLink T) : Type 1 where
  pub Valid : Bool → T → Type 0
  pub initializes :
      (t : T)
      → Valid false t
      → (((link.initialize t).0 ≡ TransportResult.ok) × Valid true (link.initialize t).1)
        ⊎ (((link.initialize t).0 ≡ TransportResult.error) × Valid false (link.initialize t).1)
  pub sends :
      (bytes : List ℕ) (n : ℕ) (t : T)
      → n ≤ length bytes
      → n < 2 ^ 31
      → Valid true t
      → Valid true (link.send bytes n t).1
  pub receives :
      (n : ℕ) (t : T)
      → n < 2 ^ 31
      → Valid true t
      → Valid true (link.receive n t).1
        × (length (link.receive n t).0.stored ≤ n)
        × IsBytes (link.receive n t).0.stored
        × ((link.receive n t).0.received ≤ n)
  pub shuts_down : (t : T) → Valid true t → Valid false (link.shutdown t)
