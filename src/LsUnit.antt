-- ===== src/LsUnit.antt =====
-- The load and store unit (`LSUnit` of sim/include/lsu.h and sim/src/lsu.cpp) between the reorder
-- buffer and the first cache.
pub mod Forward
pub mod Dispatch
pub mod Process
pub mod Working
pub mod Stores
pub mod Loads
pub mod Cycle
pub mod Writeback
pub mod Violation
mod Tests
use cisim.Prelude.{
  ℕ, zero, suc, ◌+◌, ◌≡◌, Bool, true, false, not, ◌&&◌, ltb, ◌==◌, if◌then◌else◌, List, [], ◌∷◌,
  ◌++◌, length, get_elem?, set, Option, none, some, ◌>>=◌, ◌>>◌, assert,
}
use cisim.Operation.{
  Operation, Ops, is_load, is_store, is_status, at_least, allocated, ready, issued, executing,
  commited, sleep, update_status, set_status, set_finish, modify,
}
use cisim.LoadStoreQueue.{
  LdstqEntry, Ldstq, if_full, complete_instruction, commit_instruction, add_instruction, free_entry,
  flush,
}
use cisim.LoadStoreQueue
use cisim.MemTransaction.{MemTransaction, is_evict}

-- What the unit asks of its cache. The receipt of a request can fail an assertion.
pub record MemPort (Cache : Type 0) : Type 0 where
  pub will_accept_transaction : Cache → MemTransaction → Bool
  pub recv_request : Cache → MemTransaction → Option Cache

-- In a state that is `Ready`, a cache can receive a request, not an eviction, that it accepts, and is
-- `Ready` after it.
abbrev pub Receives : (Cache : Type 0) → MemPort Cache → (Cache → Type 0) → Type 0
Receives Cache port Ready =
    (cache : Cache) (t : MemTransaction)
    → Ready cache
    → is_evict t ≡ false
    → port.will_accept_transaction cache t ≡ true
    → (cache' : Cache) × (port.recv_request cache t ≡ some cache') × Ready cache'

pub record LsUnit : Type 0 where
  pub ldq : Ldstq
  pub stq : Ldstq
  pub responses : List MemTransaction

unfoldable pub init : ℕ → ℕ → LsUnit
init ldq_size stq_size = record {
  ldq = LoadStoreQueue.init ldq_size;
  stq = LoadStoreQueue.init stq_size;
  responses = [];
}

-- `issue`
unfoldable pub issue : Ops → ℕ → Option Ops
issue ops op = do assert (is_status (ops op).status allocated); some (modify ops op update_status)

-- `addInstruction`: an operation is a load, a store or neither.
unfoldable pub add_to_queues : Ops → LsUnit → ℕ → Option LsUnit
add_to_queues ops u op =
    if is_load (ops op)
    then (add_instruction ops u.ldq op >>= λ q. some (record u { ldq = q }))
    else if is_store (ops op)
    then (add_instruction ops u.stq op >>= λ q. some (record u { stq = q }))
    else some u

-- `commitInstruction`
unfoldable pub commit_in_queues : Ops → LsUnit → ℕ → Option Ops
commit_in_queues ops u op =
    if is_load (ops op)
    then commit_instruction ops u.ldq op
    else if is_store (ops op)
    then commit_instruction ops u.stq op
    else some ops

-- `canDispatch`
unfoldable pub can_dispatch : Ops → LsUnit → ℕ → Bool → Bool
can_dispatch ops u op cpu =
    if cpu
    then (if is_load (ops op)
        then not (if_full u.ldq)
        else if is_store (ops op)
        then not (if_full u.stq)
        else true)
    else not (if_full u.ldq) && not (if_full u.stq)

-- `flush`
unfoldable pub flush_queues : Ops → LsUnit → Option LsUnit
flush_queues ops u = do
  ldq ← flush ops u.ldq
  stq ← flush ops u.stq
  some (record u { ldq = ldq; stq = stq })

-- The test of one entry in the loop of `shouldFlush` for a store `op`; `none` where the assertion on
-- `forwardOp` fails.
abbrev pub violates : Ops → ℕ → LdstqEntry → Option Bool
violates ops op e =
    if not e.empty && (ltb (ops op).dyn_id e.dyn_id && e.address == (ops op).addr)
    then (if e.data_forwarded
        then (e.forward_op >>= λ f. some (ltb (ops f).dyn_id (ops op).dyn_id))
        else some (at_least (ops e.op).status executing))
    else some false

-- `shouldFlush`: the loop ends at the first entry that says so.
unfoldable pub should_flush_in : Ops → ℕ → List LdstqEntry → Option Bool
should_flush_in ops op [] = some false
should_flush_in ops op (e ∷ es) =
    let rest = should_flush_in ops op es in violates ops op e >>= λ b. if b then some true else rest

abbrev pub should_flush : Ops → LsUnit → ℕ → Option Bool
should_flush ops u op = should_flush_in ops op u.ldq.queue

-- `wb`: the loads that the cache has answered are complete, but for squashed ones.
unfoldable pub complete_all : Ops → Ldstq → List MemTransaction → Option Ops
complete_all ops ldq [] = some ops
complete_all ops ldq (resp ∷ resps) = elim resp.op [
  | none ↦ complete_all ops ldq resps
  | some op ↦
      (if (ops op).is_squashed then some ops else complete_instruction ops ldq op) >>= λ ops'.
      complete_all ops' ldq resps
]

unfoldable pub wb : Ops → LsUnit → Option (Ops × LsUnit)
wb ops u = do ops' ← complete_all ops u.ldq u.responses; some (ops', record u { responses = [] })

-- `getExecutingLoads`
unfoldable pub executing_loads : Ops → List LdstqEntry → ℕ
executing_loads ops [] = 0
executing_loads ops (e ∷ es) =
    (if not e.empty && is_status (ops e.op).status executing then 1 else 0) + executing_loads ops es

-- A store older than `op` with its address, unless `skips` says so of its operation.
abbrev pub matches : Ops → (Operation → Bool) → ℕ → LdstqEntry → Bool
matches ops skips op e =
    not e.empty
    && (not (skips (ops e.op))
        && ((ops e.op).addr == (ops op).addr && ltb (ops e.op).dyn_id (ops op).dyn_id))

-- The loop of `forwardData` and of `getAliasOp`, from entry `i` on, with `ret` and `dynID` so far.
unfoldable pub youngest_store :
    Ops → (Operation → Bool) → ℕ → List LdstqEntry → ℕ → Option ℕ → ℕ → Option (Option ℕ)
youngest_store ops skips op [] i ret dyn_id = some ret
youngest_store ops skips op (e ∷ es) i ret dyn_id =
    let id = (ops e.op).dyn_id in
    let older = matches ops skips op e in
    let better = older && ltb dyn_id id in
    assert (not (older && id == dyn_id))
    >> youngest_store ops skips op es (suc i) (if better then some i else ret)
        (if better then id else dyn_id)

-- `forwardData`: the place of the entry in the store queue, `none` inside for a null pointer.
unfoldable pub forward_data : Ops → Ldstq → ℕ → Option (Option ℕ)
forward_data ops stq op = youngest_store ops (λ o. false) op stq.queue 0 none 0

-- `getAliasOp` passes over the stores whose data is ready.
unfoldable pub get_alias_op : Ops → Ldstq → ℕ → Option (Option ℕ)
get_alias_op ops stq op = youngest_store ops (λ o. at_least o.status ready) op stq.queue 0 none 0

-- `doForwardData`, but for the clearing of the list.
unfoldable pub do_forward_data : Ops → Ldstq → List ℕ → Option Ops
do_forward_data ops ldq [] = some ops
do_forward_data ops ldq (lop ∷ lops) =
    assert (is_status (ops lop).status sleep)
    >> (complete_instruction ops ldq lop >>= λ ops'. do_forward_data ops' ldq lops)
