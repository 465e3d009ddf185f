-- ===== src/Host/System.antt =====
-- apps/desktop/src/system_service.cpp: telemetry from the files of the Linux kernel.
--
-- `fscanf` and `sscanf` are calls of the C library: what they read of a file is an argument, `none`
-- where the file cannot be opened or does not have the form. `unsigned long long` is 64 bits.
pub mod Laws
use psp_dev_link.Base.{
  ℕ, ◌+◌, ◌-◌, ◌*◌, ◌/◌, ◌%◌, ◌^◌, List, Option, none, some, ℤ, pos, negsuc, ltb, leb,
  if◌then◌else◌,
}

pub record SystemMetrics : Type 0 where
  pub cpu_usage : ℕ
  pub ram_usage : ℕ
  pub cpu_temp : ℕ
  pub ram_total : ℕ
  pub ram_free : ℕ

-- The four counters of the first line of /proc/stat.
pub record CpuTicks : Type 0 where
  pub user : ℕ
  pub user_low : ℕ
  pub sys : ℕ
  pub idle : ℕ

-- `last_user` and the other counters, and the local `simulated_temp`, which is static.
pub record SystemService : Type 0 where
  pub last : CpuTicks
  pub simulated_temp : ℕ

-- What the thermal zone gives: no file, a file that does not parse, or the millidegrees.
pub data Thermal : Type 0 where
  no_zone unreadable : Thermal
  millidegrees : ℤ → Thermal

-- `(uint16_t)(temp_milli / 100)`; the division of a negative number rounds towards 0.
unfoldable pub tenths : ℤ → ℕ
tenths (pos n) = n / 100 % 2 ^ 16
tenths (negsuc n) = (2 ^ 16 - (n + 1) / 100 % 2 ^ 16) % 2 ^ 16

-- What one round reads; the amounts of memory are 0 where their lines are missing.
pub record Readings : Type 0 where
  pub stat : Option CpuTicks
  pub mem_opened : Option (ℕ × ℕ)
  pub thermal : Thermal

abbrev pub no_ticks : CpuTicks
no_ticks = record { user = 0; user_low = 0; sys = 0; idle = 0 }

-- The constructor.
unfoldable pub start : Option CpuTicks → SystemService
start none = record { last = no_ticks; simulated_temp = 385 }
start (some t) = record { last = t; simulated_temp = 385 }

-- `a - b` and `a + b` of 64 bits.
abbrev pub sub64 : ℕ → ℕ → ℕ
sub64 a b = (a + 2 ^ 64 - b) % 2 ^ 64

abbrev pub add64 : ℕ → ℕ → ℕ
add64 a b = (a + b) % 2 ^ 64

abbrev pub total_diff : CpuTicks → CpuTicks → ℕ
total_diff now last =
    add64
      (add64 (add64 (sub64 now.user last.user) (sub64 now.user_low last.user_low))
        (sub64 now.sys last.sys))
      (sub64 now.idle last.idle)

abbrev pub idle_diff : CpuTicks → CpuTicks → ℕ
idle_diff now last = sub64 now.idle last.idle

-- The percentage as it is stored, from the two differences.
unfoldable pub busy_percent : ℕ → ℕ → ℕ
busy_percent total idle = (sub64 total idle * 100) % 2 ^ 64 / total % 2 ^ 8

unfoldable pub read_cpu :
    Option CpuTicks → SystemService → SystemMetrics → SystemService × SystemMetrics
unfolding busy_percent
read_cpu none s m = (s, m)
read_cpu (some t) s m = (
  record s { last = t },
  (if ltb 0 (total_diff t s.last)
      then record m { cpu_usage = busy_percent (total_diff t s.last) (idle_diff t s.last) }
      else m),
)

unfoldable pub used_percent : ℕ → ℕ → ℕ
used_percent total avail = (sub64 total avail * 100) % 2 ^ 64 / total % 2 ^ 8

unfoldable pub read_memory : Option (ℕ × ℕ) → SystemMetrics → SystemMetrics
unfolding used_percent
read_memory none m = m
read_memory (some (total_kb, avail_kb)) m =
    let sized = record m {
      ram_total = total_kb * 1024 % 2 ^ 64;
      ram_free = avail_kb * 1024 % 2 ^ 64;
    } in
    if ltb 0 total_kb
    then (if leb avail_kb total_kb
        then record sized { ram_usage = used_percent total_kb avail_kb }
        else sized)
    else m

-- The simulated temperature is computed in `int` and stored in 16 bits, which hold it.
unfoldable pub read_temperature :
    Thermal → SystemService → SystemMetrics → SystemService × SystemMetrics
read_temperature Thermal.no_zone s m =
    let t = (s.simulated_temp + 3) % 40 + 380 in
    (record s { simulated_temp = t }, record m { cpu_temp = t })
read_temperature Thermal.unreadable s m = (s, m)
read_temperature (Thermal.millidegrees n) s m = (s, record m { cpu_temp = tenths n })

abbrev pub zero_metrics : SystemMetrics
zero_metrics = record { cpu_usage = 0; ram_usage = 0; cpu_temp = 400; ram_total = 0; ram_free = 0 }

unfoldable pub get_metrics : Readings → SystemService → SystemService × SystemMetrics
unfolding read_cpu read_memory read_temperature
get_metrics r s =
    let (s1, m1) = read_cpu r.stat s zero_metrics in
    read_temperature r.thermal s1 (read_memory r.mem_opened m1)
