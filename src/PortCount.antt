-- ===== src/PortCount.antt =====
-- Counts of free ports in caches and memory (sim/include/mem/cache.h, sim/src/mem/DRAM.cpp): `none` is
-- the -1 of ports without a bound.
use cisim.Prelude.{ℕ, zero, suc, ◌-◌, Bool, true, false, ltb, Option, none, some}

-- `free > 0 || ports == -1`
abbrev pub has_port : Option ℕ → Option ℕ → Bool
has_port none free = true
has_port (some n) none = false
has_port (some n) (some free) = ltb 0 free

-- `free--`, where a count below 0 is like 0, since it is only asked whether one is above 0.
abbrev pub count_down : Option ℕ → Option ℕ
count_down none = none
count_down (some n) = some (n - 1)

-- `free--; assert(free >= 0)`, which also fails at -1.
abbrev pub take_port : Option ℕ → Option (Option ℕ)
take_port none = none
take_port (some zero) = none
take_port (some (suc n)) = some (some n)
