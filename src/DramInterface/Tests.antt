-- ===== src/DramInterface/Tests.antt =====
-- The memory interface on concrete inputs (sim/src/mem/DRAM.cpp).
use cisim.Prelude.{ℕ, ◌+◌, ◌≡◌, refl, arith, true, false, List, [], ◌∷◌, some, ◌>>=◌}
use cisim.Prelude.Dict.{lookup, erase, insert}
use cisim.MemTransaction.{MemTransaction, HwId}
use cisim.PriorityQueue.{tally, push}
use cisim.SimpleDram
use cisim.DramInterface.{
  DramInterface, init, add_read, add_transaction, process, complete, read_complete,
}
use cisim.DramInterface.Served.{outstanding}
use cisim.DramInterface.Process.{
  IsConsistent, add_read-IsConsistent, add_transaction-IsConsistent, process-IsConsistent,
}

abbrev start : DramInterface
start = init 0 true (SimpleDram.init 1 1 12) (some 4) (some 4)

abbrev load : MemTransaction
load = record {
  op = some 7;
  dyn_id = 7;
  addr = 70;
  is_load_req = true;
  from_icache = false;
  is_prefetch = false;
  hw_id = HwId.hardware 0;
}

start-IsConsistent : IsConsistent start
unfolding init SimpleDram.init lookup
start-IsConsistent = (
  record { writes = λ addr. refl; reads = λ addr h. absurd (omega (arith, h)); sorted_reads = tt },
  tt,
)

abbrev one : MemTransaction → ℕ
one t = 1

add_transaction-IsConsistent_example :
    (d' : DramInterface) × (add_transaction (some load) 64 0 start ≡ some d')
    × IsConsistent d'
    × (outstanding one d' ≡ 1 + outstanding one start)
unfolding init
add_transaction-IsConsistent_example =
    add_transaction-IsConsistent one (some load) 64 0 start refl start-IsConsistent

process-IsConsistent_example :
    (d' : DramInterface) × (sent : List MemTransaction) × (process (add_read load 64 0 start)
      ≡ some (d', sent))
    × IsConsistent d'
    × (tally one sent + outstanding one d' ≡ outstanding one (add_read load 64 0 start))
unfolding init SimpleDram.init SimpleDram.add_transaction
process-IsConsistent_example =
    process-IsConsistent one (add_read load 64 0 start) refl (omega arith)
      (add_read-IsConsistent one load 64 0 start start-IsConsistent).0

-- The load is answered in the cycle after it came, with a latency of 1.
process_example :
    (process (record (add_read load 64 0 start) {
      simple_dram = record (add_read load 64 0 start).simple_dram { max_req_per_epoch = 1 };
    })
      >>= λ s. some s.1)
    ≡ some (load ∷ [])
unfolding process init SimpleDram.init SimpleDram.add_transaction push SimpleDram.process complete
    read_complete lookup erase insert
process_example = refl
