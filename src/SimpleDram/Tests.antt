-- ===== src/SimpleDram/Tests.antt =====
-- The simple DRAM on concrete inputs (sim/src/mem/SimpleDRAM.cpp).
use cisim.Prelude.{
  ℕ, ◌+◌, ◌≡◌, refl, arith, Bool, true, false, List, [], ◌∷◌, Option, some, ◌>>=◌, ◌==◌, ◌%◌,
  if◌then◌else◌,
}
use cisim.SimpleDram.{SimpleDram, MemOperator, initialize, add_transaction, serve, process}
use cisim.SimpleDram
use cisim.SimpleDram.Serve.{Serves, process-Serves}

-- Two requests are due; the epoch has room for one.
abbrev two_due : SimpleDram
two_due = record {
  latency = 2;
  core_clockspeed = 2000;
  peak_bw = 12;
  pq =
      record { addr = 64; final_cycle = 3; trans_id = 0; is_write = true }
      ∷ record { addr = 128; final_cycle = 4; trans_id = 1; is_write = false }
      ∷ [];
  trans_id = 2;
  epoch_length = 16;
  bytes_per_req = 64;
  max_req_per_epoch = 1;
  request_count = 0;
  cycles = 5;
}

-- A callback that counts.
abbrev counted : MemOperator → ℕ → Option ℕ
counted m n = some (n + 1)

abbrev Any : List MemOperator → ℕ → Type 0
Any ms n = Unit

process-Serves_example :
    (d' : SimpleDram) × (n : ℕ) × (more : Bool) × (count : ℕ) × (process counted two_due 7
      ≡ some (d', n, more))
    × Serves counted Any (λ m ms s h. (s + 1, refl, tt)) 5 1 two_due.pq 0 d'.pq count n
    × (d'.cycles ≡ 6)
    × (d'.request_count ≡ (if d'.cycles % 16 == 0 then 0 else count))
process-Serves_example =
    process-Serves counted Any (λ m ms s h. (s + 1, refl, tt)) two_due 7 (omega arith)
      ((omega arith, tt), (tt, tt)) tt

-- 12 GB/s at 2 GHz with lines of 64 bytes: one request in 16 cycles.
initialize_example :
    (initialize (SimpleDram.init 0 200 12) 2000 64 >>= λ d. some d.max_req_per_epoch) ≡ some 1
unfolding initialize SimpleDram.init
initialize_example = refl
