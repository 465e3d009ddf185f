-- ===== src/Payload/SystemStats.antt =====
-- The system telemetry payload of shared/protocol/src/payload.c.
pub mod Laws
use psp_dev_link.Base.{
  ℕ, ◌<◌, ◌^◌, List, [], ◌∷◌, ◌++◌, Option, none, some, ℤ, pos, negsuc, ◌>>=◌, load, store_all, ltb,
  if◌then◌else◌,
}
use psp_dev_link.Wire.{bytes16, bytes64, read16, read64}

abbrev pub system_stats_size : ℕ
system_stats_size = 20

pub record SystemStatsPayload : Type 0 where
  pub cpu_usage : ℕ
  pub ram_usage : ℕ
  pub cpu_temp : ℕ
  pub ram_total : ℕ
  pub ram_free : ℕ

-- The twenty bytes that are stored, in the order of their addresses.
abbrev pub stats_bytes : SystemStatsPayload → List ℕ
stats_bytes s =
    s.cpu_usage ∷ s.ram_usage ∷ (bytes16 s.cpu_temp ++ (bytes64 s.ram_total ++ bytes64 s.ram_free))

unfoldable pub serialize_system_stats :
    Option SystemStatsPayload → Option (List ℕ) → ℕ → Option (ℤ × Option (List ℕ))
unfolding store_all
serialize_system_stats (some stats) (some buffer) size =
    if ltb size system_stats_size
    then some (negsuc 0, some buffer)
    else (store_all 0 (stats_bytes stats) buffer >>= λ out. some (pos 0, some out))
serialize_system_stats _ buffer size = some (negsuc 0, buffer)

unfoldable pub deserialize_system_stats :
    Option (List ℕ) → ℕ → Option SystemStatsPayload → Option (ℤ × Option SystemStatsPayload)
unfolding read16 read64
deserialize_system_stats (some buffer) size (some stats) =
    if ltb size system_stats_size then some (negsuc 0, some stats) else (do
      cpu ← load buffer 0
      ram ← load buffer 1
      temp ← read16 2 buffer
      total ← read64 4 buffer
      free ← read64 12 buffer
      let out : SystemStatsPayload = record {
        cpu_usage = cpu;
        ram_usage = ram;
        cpu_temp = temp;
        ram_total = total;
        ram_free = free;
      }
      some (pos 0, some out))
deserialize_system_stats _ size stats = some (negsuc 0, stats)

-- Each field fits its C type.
pub record IsStats (s : SystemStatsPayload) : Type 0 where
  pub cpu_fits : s.cpu_usage < 2 ^ 8
  pub ram_fits : s.ram_usage < 2 ^ 8
  pub temp_fits : s.cpu_temp < 2 ^ 16
  pub total_fits : s.ram_total < 2 ^ 64
  pub free_fits : s.ram_free < 2 ^ 64
