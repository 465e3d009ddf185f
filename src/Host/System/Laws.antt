-- ===== src/Host/System/Laws.antt =====
-- The percentages of apps/desktop/src/system_service.cpp.
use psp_dev_link.Base.{
  ℕ, ◌+◌, ◌-◌, ◌*◌, ◌/◌, ◌%◌, ◌^◌, ◌<◌, ◌≤◌, ◌≡◌, refl, Option, none, some, ltb, leb, arith,
  Bool-cases, inl, inr,
}
use psp_dev_link.Host.System.{
  SystemMetrics, SystemService, CpuTicks, Thermal, Readings, zero_metrics, sub64, total_diff,
  idle_diff, busy_percent, used_percent, read_cpu, read_memory, read_temperature, get_metrics,
}

percent_bound : (part whole : ℕ) → part ≤ whole → 0 < whole → part * 100 / whole ≤ 100
percent_bound part whole le pos = grind arith

sub64-le : (a b : ℕ) → b ≤ a → a < 2 ^ 64 → sub64 a b ≡ a - b
sub64-le a b le fits = grind arith

-- A percentage of a part of a whole that 64 bits hold a hundred times.
used_percent_lem :
    (whole rest : ℕ)
    → rest ≤ whole
    → 0 < whole
    → whole * 100 < 2 ^ 64
    → (used_percent whole rest ≡ (whole - rest) * 100 / whole) × (used_percent whole rest ≤ 100)
unfolding used_percent
used_percent_lem whole rest le pos fits =
    let exact = sub64-le whole rest le (omega arith) in
    let bound = percent_bound (whole - rest) whole (omega arith) pos in
    let small : (whole - rest) * 100 % 2 ^ 64 ≡ (whole - rest) * 100 = omega arith in
    let byte : (whole - rest) * 100 / whole % 2 ^ 8 ≡ (whole - rest) * 100 / whole = omega arith in
    let it : used_percent whole rest ≡ (whole - rest) * 100 / whole = rw (exact, small, byte) in
    (it, omega arith)

-- The counters have not gone back since the last reading, and are small enough for the percentage.
abbrev pub Advances : Option CpuTicks → CpuTicks → Type 0
Advances none last = Unit
Advances (some now) last =
    (last.user ≤ now.user)
    × (last.user_low ≤ now.user_low)
    × (last.sys ≤ now.sys)
    × (last.idle ≤ now.idle)
    × ((now.user + now.user_low + now.sys + now.idle) * 100 < 2 ^ 64)

abbrev pub MemoryFits : Option (ℕ × ℕ) → Type 0
MemoryFits none = Unit
MemoryFits (some (total, avail)) = total * 100 < 2 ^ 64

total_diff_lem :
    (now last : CpuTicks)
    → Advances (some now) last
    → (total_diff now last
        ≡ (now.user - last.user)
          + (now.user_low - last.user_low)
          + (now.sys - last.sys)
          + (now.idle - last.idle))
      × (idle_diff now last ≡ now.idle - last.idle)
total_diff_lem now last (a, b, c, d, fits) = (omega arith, omega arith)

busy_bound :
    (now last : CpuTicks)
    → Advances (some now) last
    → 0 < total_diff now last
    → busy_percent (total_diff now last) (idle_diff now last) ≤ 100
unfolding busy_percent used_percent
busy_bound now last ok pos =
    let (whole, rest) = total_diff_lem now last ok in
    let (a, b, c, d, fits) = ok in
    (used_percent_lem (total_diff now last) (idle_diff now last) (omega (arith, whole, rest)) pos
      (omega (arith, whole))).1

read_cpu_bound :
    (stat : Option CpuTicks) (s : SystemService) (m : SystemMetrics)
    → Advances stat s.last
    → m.cpu_usage ≤ 100
    → ((read_cpu stat s m).1.cpu_usage ≤ 100) × ((read_cpu stat s m).1.ram_usage ≡ m.ram_usage)
unfolding read_cpu
read_cpu_bound none s m ok small = (small, refl)
read_cpu_bound (some t) s m ok small = elim (Bool-cases (ltb 0 (total_diff t s.last))) [
  | inl some_time ↦
      let bound = busy_bound t s.last ok (ground (arith, some_time)) in rw some_time (bound, refl)
  | inr no_time ↦ rw no_time (small, refl)
]

read_memory_bound :
    (mem : Option (ℕ × ℕ)) (m : SystemMetrics)
    → MemoryFits mem
    → m.ram_usage ≤ 100
    → ((read_memory mem m).ram_usage ≤ 100) × ((read_memory mem m).cpu_usage ≡ m.cpu_usage)
unfolding read_memory
read_memory_bound none m ok small = (small, refl)
read_memory_bound (some (total, avail)) m ok small = elim (Bool-cases (ltb 0 total)) [
  | inr no_total ↦ rw no_total (small, refl)
  | inl sized ↦ elim (Bool-cases (leb avail total)) [
    | inr more ↦ rw (sized, more) (small, refl)
    | inl part ↦
        let bound =
          used_percent_lem total avail (ground (arith, part)) (ground (arith, sized)) ok in
        rw (sized, part) (bound.1, refl)
  ]
]

read_temperature_same :
    (t : Thermal) (s : SystemService) (m : SystemMetrics)
    → ((read_temperature t s m).1.cpu_usage ≡ m.cpu_usage)
      × ((read_temperature t s m).1.ram_usage ≡ m.ram_usage)
unfolding read_temperature
read_temperature_same Thermal.no_zone s m = (refl, refl)
read_temperature_same Thermal.unreadable s m = (refl, refl)
read_temperature_same (Thermal.millidegrees n) s m = (refl, refl)

-- While the counters of the kernel do not go back, and they and the amount of memory are so small
-- that 64 bits hold their hundredfold, the percentages of processor and memory in a reading are
-- at most 100, whichever of the files cannot be read.
pub get_metrics-percentages :
    (r : Readings) (s : SystemService)
    → Advances r.stat s.last
    → MemoryFits r.mem_opened
    → ((get_metrics r s).1.cpu_usage ≤ 100) × ((get_metrics r s).1.ram_usage ≤ 100)
unfolding get_metrics
get_metrics-percentages r s ok fits =
    let cpu = read_cpu_bound r.stat s zero_metrics ok (omega arith) in
    let ram =
      read_memory_bound r.mem_opened (read_cpu r.stat s zero_metrics).1 fits
        (omega (arith, cpu.1)) in
    let same =
      read_temperature_same r.thermal (read_cpu r.stat s zero_metrics).0
        (read_memory r.mem_opened (read_cpu r.stat s zero_metrics).1) in
    (omega (arith, cpu.0, ram.1, same.0), omega (arith, ram.0, same.1))
