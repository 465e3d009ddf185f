-- ===== src/Payload/SystemStats/Laws.antt =====
-- Writing and reading the telemetry payload (shared/protocol/src/payload.c).
use psp_dev_link.Base.{
  ℕ, ◌≤◌, ◌≡◌, refl, true, List, ◌∷◌, ◌++◌, Option, none, some, ℤ, pos, negsuc, ◌>>=◌, length, drop,
  ltb, ◌||◌, is_null, ltb-eq-false, store_all-overwrite, get_elem?-total, drop-get_elem?, arith, ap,
  ◌∙◌,
}
use psp_dev_link.Wire.{bytes16, bytes64, IsBytes, read16, read64}
use psp_dev_link.Wire.Laws.{
  Field, or16-byte_at, or64-byte_at, read16-Field, read64-Field, IsBytes-get_elem?,
}
use psp_dev_link.Payload.SystemStats.{
  system_stats_size, SystemStatsPayload, stats_bytes, serialize_system_stats,
  deserialize_system_stats, IsStats,
}

pub serialize_system_stats_lem :
    (s : SystemStatsPayload) (buf : List ℕ) (size : ℕ)
    → system_stats_size ≤ size
    → size ≤ length buf
    → serialize_system_stats (some s) (some buf) size
      ≡ some (pos 0, some (stats_bytes s ++ drop 20 buf))
unfolding serialize_system_stats
serialize_system_stats_lem s buf size enough there = rw (
  ltb-eq-false size system_stats_size enough,
  store_all-overwrite 0 (stats_bytes s) buf (omega arith),
)

pub deserialize-stats_bytes :
    (s g : SystemStatsPayload) (rest : List ℕ) (size : ℕ)
    → IsStats s
    → system_stats_size ≤ size
    → deserialize_system_stats (some (stats_bytes s ++ rest)) size (some g) ≡ some (pos 0, some s)
unfolding deserialize_system_stats
deserialize-stats_bytes s g rest size ok enough = rw (
  ltb-eq-false size system_stats_size enough,
  or16-byte_at s.cpu_temp ok.temp_fits,
  or64-byte_at s.ram_total ok.total_fits,
  or64-byte_at s.ram_free ok.free_fits,
)

-- Telemetry whose fields fit their types comes back unchanged: with at least twenty bytes on both
-- sides, deserialising what was serialised returns 0 and the same record, whatever the buffer and
-- the out-parameter held before.
pub stats_round_trip :
    (s g : SystemStatsPayload) (buf : List ℕ) (size : ℕ)
    → IsStats s
    → system_stats_size ≤ size
    → size ≤ length buf
    → (serialize_system_stats (some s) (some buf) size >>= λ r.
        deserialize_system_stats r.1 size (some g))
      ≡ some (pos 0, some s)
stats_round_trip s g buf size ok enough there =
    rw (serialize_system_stats_lem s buf size enough there)
      (deserialize-stats_bytes s g (drop 20 buf) size ok enough)

-- What a call on twenty or more bytes gives back.
pub record DecodesStats (buf : List ℕ) (result : Option (ℤ × Option SystemStatsPayload))
    : Type 0 where
  pub stats : SystemStatsPayload
  pub returns : result ≡ some (pos 0, some stats)
  pub in_range : IsStats stats
  pub wire : buf ≡ stats_bytes stats ++ drop 20 buf

module _ (buf : List ℕ) (g : SystemStatsPayload) (size : ℕ) (bytes : IsBytes buf)
    (enough : system_stats_size ≤ size) (there : 20 ≤ length buf) where
  temp-Field : Field 16 bytes16 2 2 buf (read16 2 buf)
  temp-Field = read16-Field buf bytes 2 (omega arith)

  total-Field : Field 64 bytes64 8 4 buf (read64 4 buf)
  total-Field = read64-Field buf bytes 4 (omega arith)

  free-Field : Field 64 bytes64 8 12 buf (read64 12 buf)
  free-Field = read64-Field buf bytes 12 (omega arith)

  -- On a buffer of at least twenty bytes the call never leaves it: with `size` at least twenty it
  -- returns 0 and the telemetry whose twenty bytes stand first in the buffer, each field in the
  -- range of its type.
  pub deserialize_system_stats-Decodes :
      DecodesStats buf (deserialize_system_stats (some buf) size (some g))
  unfolding deserialize_system_stats
  deserialize_system_stats-Decodes =
      let (cpu, at0) = get_elem?-total buf 0 (omega arith) in
      let (ram, at1) = get_elem?-total buf 1 (omega arith) in
      record {
        stats = record {
          cpu_usage = cpu;
          ram_usage = ram;
          cpu_temp = temp-Field.value;
          ram_total = total-Field.value;
          ram_free = free-Field.value;
        };
        returns = rw (
          ltb-eq-false size system_stats_size enough,
          at0,
          at1,
          temp-Field.returns,
          total-Field.returns,
          free-Field.returns,
        );
        in_range = record {
          cpu_fits = IsBytes-get_elem? buf 0 bytes at0;
          ram_fits = IsBytes-get_elem? buf 1 bytes at1;
          temp_fits = temp-Field.fits;
          total_fits = total-Field.fits;
          free_fits = free-Field.fits;
        };
        wire =
            drop-get_elem? 0 1 buf refl at0
            ∙ ap (λ l. cpu ∷ l)
                (drop-get_elem? 1 2 buf refl at1
                  ∙ ap (λ l. ram ∷ l)
                      (temp-Field.there
                        ∙ ap (λ l. bytes16 temp-Field.value ++ l)
                            (total-Field.there
                              ∙ ap (λ l. bytes64 total-Field.value ++ l) free-Field.there)));
      }

-- A NULL record, a NULL buffer or fewer than twenty bytes: both functions return -1, read and write
-- nothing, and leave the object behind the out-pointer as it was.
pub stats_calls_refuse :
    (s : Option SystemStatsPayload) (buf : Option (List ℕ)) (size : ℕ)
    → (is_null s || is_null buf || ltb size system_stats_size) ≡ true
    → (serialize_system_stats s buf size ≡ some (negsuc 0, buf))
      × (deserialize_system_stats buf size s ≡ some (negsuc 0, s))
unfolding serialize_system_stats deserialize_system_stats
stats_calls_refuse none none size e = (refl, refl)
stats_calls_refuse none (some buf) size e = (refl, refl)
stats_calls_refuse (some s) none size e = (refl, refl)
stats_calls_refuse (some s) (some buf) size e = (rw e, rw e)
