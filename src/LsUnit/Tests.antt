-- ===== src/LsUnit/Tests.antt =====
-- A load and store unit on concrete inputs (sim/include/lsu.h and sim/src/lsu.cpp), and the theorems
-- at it.
use cisim.Prelude.{
  Bool, inr, none, ℕ, ◌+◌, ◌<◌, ◌≡◌, ◌≢◌, refl, arith, true, false, if◌then◌else◌, [], get_elem?,
  Option, some, ltb, All-get_elem?, All, ◌∷◌, ◌>>=◌, length,
}
use cisim.Operation.{set_status, Operation, Ops, Kind, Status, rank}
use cisim.LoadStoreQueue.{
  LdstqEntry, Ldstq, empty_entry, add_instruction, free_entry, flush, entry_of, new_entry, if_full,
}
use cisim.LoadStoreQueue
use cisim.LoadStoreQueue.Valid.{IsQueue, init-IsQueue, replicate-empty, free_entry-IsQueue}
use cisim.LoadStoreQueue.Add.{added, added-IsQueue, add_instruction-IsQueue}
use cisim.LoadStoreQueue.Flush.{Flushed, flush-IsQueue}
use cisim.MemTransaction.{MemTransaction, HwId}
use cisim.LsUnit.{
  should_flush, LsUnit, wb, MemPort, Receives, forward_data, matches, can_dispatch, add_to_queues,
}
use cisim.LsUnit
use cisim.Cache.{Cache, will_accept_transaction, recv_request}
use cisim.Cache
use cisim.Cache.Ports.{IsBounded, recv_request-Receives}
use cisim.LsUnit.Forward.{Youngest, forward_data-Youngest}
use cisim.LsUnit.Process.{
  State, process, each, step_store, step_load, send_store, wake_loads, forward_from,
}
use cisim.LsUnit.Working.{Waits, IsWorking, IsWorking-Keeps, Keeps, IsQueue-Keeps}
use cisim.LsUnit.Writeback.{Finished, Answered, Answers, wb-Completes}
use cisim.LsUnit.Violation.{IsKnown, Searched, should_flush-Searched}
use cisim.LsUnit.Cycle.{process-IsWorking}
use cisim.LsUnit.Dispatch.{IsUnit, IsNew, Enters, can_dispatch-IsUnit}

-- Pointer p is a store of number p for p below 4, and a load from there on; all at address 64.
abbrev operation : ℕ → Kind → Operation
operation n kind = record {
  kind = kind;
  dyn_id = n;
  addr = 64;
  status = Status.allocated;
  finish_flag = false;
  is_squashed = false;
  mispredict = false;
  current_cycle = 0;
  total_cycle = 1;
  cycle = 0;
  dyn_deps = [];
  read_rf_uids = [];
  dispatch_cycle = 0;
  execute_cycle = 0;
  writeback_cycle = 0;
  retire_cycle = 0;
  is_extract_func = false;
  is_packing_func = false;
  dyser_unit_id = 0;
  offset = 0;
}

abbrev objects : Ops
objects p = operation p (if ltb p 4 then Kind.store else Kind.load)

empty-IsNew : (size id : ℕ) → IsNew (LoadStoreQueue.init size) id
unfolding LoadStoreQueue.init
empty-IsNew size id i e r b = absurd (ground (arith, b, replicate-empty size i e r))

-- A store queue of two entries with operation 3.
abbrev one_store : Ldstq
one_store = added objects (LoadStoreQueue.init 2) 3 0

one_store-IsQueue : IsQueue objects one_store
unfolding LoadStoreQueue.init
one_store-IsQueue =
    added-IsQueue objects (LoadStoreQueue.init 2) 3 0 (init-IsQueue objects 2) empty_entry refl refl
      (empty-IsNew 2 3)

one_store-positive :
    (j : ℕ) (d : LdstqEntry)
    → get_elem? one_store.queue j ≡ some d
    → matches objects (λ o. false) 7 d ≡ true
    → 0 < (objects d.op).dyn_id
unfolding LoadStoreQueue.init
one_store-positive j d r =
    All-get_elem?
      (λ (e : LdstqEntry). matches objects (λ o. false) 7 e ≡ true → 0 < (objects e.op).dyn_id)
      one_store.queue j ((λ m. omega arith), ((λ m. absurd (cc)), tt)) r

forward_data-Youngest_example :
    (r : Option ℕ) × (forward_data objects one_store 7 ≡ some r)
    × Youngest objects (λ o. false) 7 one_store r
forward_data-Youngest_example =
    forward_data-Youngest objects one_store 7 one_store-IsQueue one_store-positive

-- The store queue has room for one more store.
abbrev one_store_unit : LsUnit
one_store_unit = record { ldq = LoadStoreQueue.init 2; stq = one_store; responses = [] }

forward_example : forward_data objects one_store 7 ≡ some (some 0)
unfolding forward_data LsUnit.youngest_store LoadStoreQueue.init
forward_example = refl

one_store-IsNew : IsNew one_store 2
unfolding LoadStoreQueue.init
one_store-IsNew j d r =
    All-get_elem? (λ (e : LdstqEntry). e.empty ≡ false → e.dyn_id ≢ 2) one_store.queue j
      ((λ m. λ h. absurd (omega (arith, h))), ((λ m. absurd (cc)), tt)) r

dispatches : can_dispatch objects one_store_unit 2 true ≡ true
unfolding can_dispatch LoadStoreQueue.init
dispatches = refl

can_dispatch-IsUnit_example :
    (u' : LsUnit) × (add_to_queues objects one_store_unit 2 ≡ some u')
    × IsUnit objects u'
    × Enters objects one_store_unit 2 u'
can_dispatch-IsUnit_example =
    can_dispatch-IsUnit objects one_store_unit 2 (init-IsQueue objects 2, one_store-IsQueue)
      dispatches (empty-IsNew 2 2) one_store-IsNew

free_entry-IsQueue_example :
    (q' : Ldstq) × (free_entry objects one_store 3 ≡ some q')
    × IsQueue objects q'
    × (q'.used_size + 1 ≡ 1)
    × (get_elem? q'.queue 0 ≡ some empty_entry)
unfolding LoadStoreQueue.init
free_entry-IsQueue_example =
    free_entry-IsQueue objects one_store 3 0 (new_entry objects 3) one_store-IsQueue refl refl refl

flush-IsQueue_example :
    (q' : Ldstq) × (flush objects one_store ≡ some q')
    × IsQueue objects q'
    × Flushed objects one_store.queue q'.queue
flush-IsQueue_example = flush-IsQueue objects one_store one_store-IsQueue

add_instruction-IsQueue_example :
    (q' : Ldstq) × (i : ℕ) × (add_instruction objects one_store 2 ≡ some q')
    × IsQueue objects q'
    × (entry_of objects q' 2 ≡ some (i, new_entry objects 2))
    × (q'.used_size ≡ 2)
unfolding LoadStoreQueue.init
add_instruction-IsQueue_example =
    add_instruction-IsQueue objects one_store 2 one_store-IsQueue refl refl one_store-IsNew

-- The load 7 is issued while the store 3 has no data yet.
abbrev running : Ops
running p = record (objects p) { status = if ltb p 4 then Status.allocated else Status.issued }

abbrev one_load : Ldstq
one_load = added running (LoadStoreQueue.init 2) 7 0

-- A first-level cache with a port for loads and one for stores, as the cache of the unit.
abbrev first_level : MemPort Cache
first_level = record {
  will_accept_transaction = will_accept_transaction;
  recv_request = recv_request;
}

abbrev small : Cache
small = Cache.init 4 1 false 2 16 64 2 4 (some 1) (some 1)

first_level-Receives : Receives Cache first_level IsBounded
first_level-Receives cache t v stays accepts =
    let (cache', received, (there, slot, v')) =
      recv_request-Receives cache t v (λ gone. absurd (cc (gone, stays))) accepts in
    (cache', received, v')

small-IsBounded : IsBounded small
unfolding Cache.init
small-IsBounded = record { loads = (1, 1, refl, refl); stores = (1, 1, refl, refl) }

abbrev load_and_store : State Cache first_level
load_and_store = (running, record { ldq = one_load; stq = one_store; responses = [] }, small)

running-Keeps : Keeps objects running
running-Keeps p = (refl, λ e. absurd (cc))

load_and_store-IsWorking : IsWorking load_and_store.0 load_and_store.1
unfolding LoadStoreQueue.init
load_and_store-IsWorking = record {
  loads =
      added-IsQueue running (LoadStoreQueue.init 2) 7 0 (init-IsQueue running 2) empty_entry refl
        refl (empty-IsNew 2 7);
  stores = IsQueue-Keeps objects running one_store running-Keeps one_store-IsQueue;
  positive = λ j d r.
      All-get_elem? (λ (e : LdstqEntry). e.empty ≡ false → 0 < (running e.op).dyn_id)
        one_store.queue j ((λ m. omega arith), ((λ m. absurd (cc)), tt)) r;
  waiting = λ j d r.
      All-get_elem?
        (λ (e : LdstqEntry). e.empty ≡ false → All (Waits running one_load) e.forward_list)
        one_store.queue j ((λ m. tt), ((λ m. tt), tt)) r;
}

process-IsWorking_example :
    (s' : State Cache first_level) × (process Cache first_level load_and_store ≡ some s')
    × IsWorking s'.0 s'.1
    × IsBounded s'.2
process-IsWorking_example =
    process-IsWorking Cache first_level IsBounded first_level-Receives load_and_store
      load_and_store-IsWorking small-IsBounded

-- The load waits for the store, and the cache has got no request.
process_example :
    (process Cache first_level load_and_store >>= λ s. get_elem? s.1.stq.queue 0 >>= λ e.
    some (rank (s.0 7).status ∷ length s.2.incoming_requests ∷ e.forward_list))
    ≡ some (rank Status.sleep ∷ 0 ∷ 7 ∷ [])
unfolding process each step_store step_load send_store wake_loads forward_from forward_data
    LsUnit.youngest_store LoadStoreQueue.init Cache.init set_status
process_example = refl

-- The load 7 is executing, and the cache has answered it.
abbrev answering : Ops
answering p = record (objects p) { status = if ltb p 4 then Status.allocated else Status.executing }

abbrev answer : Option ℕ → MemTransaction
answer op = record {
  op = op;
  dyn_id = 7;
  addr = 64;
  is_load_req = true;
  from_icache = false;
  is_prefetch = false;
  hw_id = HwId.hardware 0;
}

abbrev answered : LsUnit
answered = record {
  ldq = one_load;
  stq = one_store;
  responses = answer (some 7) ∷ answer none ∷ [];
}

answering-Keeps : Keeps running answering
answering-Keeps p = (refl, λ e. absurd (ground arith))

answered-IsWorking : IsWorking answering answered
answered-IsWorking =
    let w =
      IsWorking-Keeps running answering load_and_store.1 answering-Keeps load_and_store-IsWorking in
    record { loads = w.loads; stores = w.stores; positive = w.positive; waiting = w.waiting }

answered-Answers : Answers answering one_load answered.responses
unfolding LoadStoreQueue.init
answered-Answers = (inr (refl, 0, new_entry running 7, refl, refl, refl), (tt, tt))

wb-Completes_example :
    (ops' : Ops) × (u' : LsUnit) × (wb answering answered ≡ some (ops', u'))
    × IsWorking ops' u'
    × Answered answering answered.responses ops'
    × All (λ (r : MemTransaction). Finished answering ops' r.op) answered.responses
    × (u' ≡ record answered { responses = [] })
wb-Completes_example = wb-Completes answering answered answered-IsWorking answered-Answers

-- The store 3 gets its address after the load 7 went ahead.
one_load-IsKnown :
    (i : ℕ) (e : LdstqEntry) → get_elem? one_load.queue i ≡ some e → IsKnown answering 3 e
unfolding LoadStoreQueue.init
one_load-IsKnown i e r =
    All-get_elem? (λ (x : LdstqEntry). IsKnown answering 3 x) one_load.queue i
      ((λ h. absurd (cc)), ((λ h. absurd (cc)), tt)) r

should_flush-Searched_example :
    (b : Bool) × (should_flush answering answered 3 ≡ some b)
    × Searched answering 3 one_load.queue b
should_flush-Searched_example = should_flush-Searched answering answered 3 one_load-IsKnown

should_flush_example : should_flush answering answered 3 ≡ some true
unfolding LsUnit.should_flush_in LoadStoreQueue.init
should_flush_example = refl
