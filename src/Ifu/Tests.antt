-- ===== src/Ifu/Tests.antt =====
-- The fetch unit on concrete inputs (sim/src/ifu.cpp), and the theorems at it.
use cisim.Prelude.{
  ℕ, ◌+◌, ◌≤◌, ◌<◌, ◌≡◌, refl, arith, true, false, if◌then◌else◌, List, [], ◌∷◌, some, ltb, length,
  ◌>>=◌,
}
use cisim.Operation.{Ops, Kind, Status}
use cisim.Cache.{Cache}
use cisim.Cache
use cisim.Cache.Ports.{IsBounded}
use cisim.Ifu.{Ifu, init, fetch_request, if0, if1, take_run, deliver}
use cisim.Ifu.Run.{TakesRun, if1-TakesRun}
use cisim.Ifu.Demand.{Asks, if0-Asks}

abbrev objects : Ops
objects p = record {
  kind = Kind.other;
  dyn_id = p;
  addr = 0;
  status = Status.init;
  finish_flag = false;
  is_squashed = false;
  mispredict = false;
  current_cycle = 0;
  total_cycle = 1;
  cycle = 0;
  dyn_deps = [];
  read_rf_uids = [];
  dispatch_cycle = 0;
  execute_cycle = 0;
  writeback_cycle = 0;
  retire_cycle = 0;
  is_extract_func = false;
  is_packing_func = false;
  dyser_unit_id = 0;
  offset = 0;
}

-- A jump from 102 to 200.
abbrev uid : ℕ → ℕ
uid p = if ltb p 3 then 100 + p else 197 + p

abbrev icache : Cache
icache = Cache.init 4 1 true 2 16 64 2 4 (some 2) (some 2)

icache-IsBounded : IsBounded icache
unfolding Cache.init
icache-IsBounded = record { loads = (2, 2, refl, refl); stores = (2, 2, refl, refl) }

if0-Asks_example :
    (u' : Ifu) × (cache' : Cache) × (ftq' : List ℕ) × (if0 objects uid init icache (0 ∷ 16 ∷ [])
      ≡ some (u', cache', ftq'))
    × Asks objects uid init icache 0 (16 ∷ []) u' cache' ftq'
    × (length init.prefetched_addrs ≤ 32 → length u'.prefetched_addrs ≤ 32)
if0-Asks_example = if0-Asks objects uid init icache 0 (16 ∷ []) icache-IsBounded

abbrev answered : Ifu
answered = record init { responses = fetch_request objects uid 0 ∷ []; occupied = true }

if1-TakesRun_example :
    (u' : Ifu) × (processed' : List ℕ) × (queue' : List ℕ) × (if1 objects uid answered
        (0 ∷ 1 ∷ 2 ∷ 3 ∷ 4 ∷ [])
        (9 ∷ [])
      ≡ some (u', processed', queue'))
    × TakesRun objects uid 16 100 (0 ∷ 1 ∷ 2 ∷ 3 ∷ 4 ∷ []) (9 ∷ []) processed' queue'
    × (1 < length queue')
    × (u'.responses ≡ [])
    × (u'.occupied ≡ false)
if1-TakesRun_example =
    if1-TakesRun objects uid answered (fetch_request objects uid 0) 0 0 (1 ∷ 2 ∷ 3 ∷ 4 ∷ [])
      (9 ∷ []) refl refl refl refl (omega arith)

-- The run ends at the jump.
if1_example :
    (if1 objects uid answered (0 ∷ 1 ∷ 2 ∷ 3 ∷ 4 ∷ []) [] >>= λ r. some (r.1 ∷ r.2 ∷ []))
    ≡ some ((3 ∷ 4 ∷ []) ∷ (0 ∷ 1 ∷ 2 ∷ []) ∷ [])
unfolding if1 deliver take_run
if1_example = refl
