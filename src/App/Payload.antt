-- ===== src/App/Payload.antt =====
-- The transport as apps/psp/src/main.c uses it, and its loop that reads a payload.
pub mod Laws
use psp_dev_link.Base.{
  ℕ, zero, suc, ◌+◌, ◌-◌, ◌≤◌, ◌≡◌, ◌⊎◌, List, Option, none, some, ◌>>=◌, length, Bool, true, false,
  ltb, ◌==◌, ◌&&◌, if◌then◌else◌, store_all,
}
use psp_dev_link.Wire.{IsBytes}
use psp_dev_link.Transport.{TransportResult, StatusMessage, Received, IsReceived}

-- `transport_receive`, `transport_send`, `sceKernelDelayThread`, `g_status_msg` and
-- `transport_shutdown`, whose result is not used.
pub record Link (T : Type 0) : Type 0 where
  pub receive : ℕ → T → Option (Received × T)
  pub send : List ℕ → ℕ → T → Option (TransportResult × T)
  pub delay_thread : ℕ → T → T
  pub status_msg : T → StatusMessage
  pub shutdown : T → T

abbrev pub payload_capacity : ℕ
payload_capacity = 512

-- `== PSPDL_TRANSPORT_OK`
abbrev pub is_ok : TransportResult → Bool
is_ok TransportResult.ok = true
is_ok _ = false

-- A `size_t` that is 0 until the transport stores a count.
abbrev pub chunk_of : Option ℕ → ℕ
chunk_of none = 0
chunk_of (some n) = n

-- How the loop ends: `payload_ok`, `pay_received`, the buffer and the link.
pub data Fetch (T : Type 0) : Type 0 where
  fetched : Bool → ℕ → List ℕ → T → Fetch T
  out_of_fuel : Fetch T

module _ {T : Type 0} (link : Link T) where
  open link use {receive, delay_thread}

  -- `while (pay_received < payload_size && pay_ticks < 100)`
  unfoldable pub fetch_payload : ℕ → ℕ → ℕ → ℕ → List ℕ → T → Option (Fetch T)
  fetch_payload zero size got ticks buf t = some out_of_fuel
  fetch_payload (suc fuel) size got ticks buf t =
      let round = receive (size - got) t >>= λ (r, t'). store_all got r.stored buf >>= λ buf'.
      (let chunk = chunk_of r.out_size in
        let next =
          fetch_payload fuel size (got + chunk) (if chunk == 0 then ticks + 1 else ticks) buf'
            (if chunk == 0 then delay_thread 1000 t' else t') in
        if is_ok r.result then next else some (fetched false got buf' t')) in
      if ltb got size && ltb ticks 100 then round else some (fetched true got buf t)
