-- ===== src/LsUnit/Process.antt =====
-- `LSUnit::process` (sim/src/lsu.cpp): one cycle of the load and store unit. The cache is an
-- interface.
use cisim.Prelude.{
  ℕ, zero, suc, true, false, if◌then◌else◌, [], ◌∷◌, ◌++◌, length, get_elem?, set, Option, none,
  some, ◌>>=◌,
}
use cisim.Operation.{
  Ops, is_load, is_status, at_least, ready, issued, commited, sleep, update_status, set_status,
  set_finish, modify,
}
use cisim.LoadStoreQueue.{LdstqEntry, Ldstq, free_entry}
use cisim.MemTransaction.{MemTransaction, HwId}
use cisim.LsUnit.{MemPort, LsUnit, forward_data, do_forward_data}

abbrev pub request : Ops → ℕ → MemTransaction
request ops op = record {
  op = some op;
  dyn_id = (ops op).dyn_id;
  addr = (ops op).addr;
  is_load_req = is_load (ops op);
  from_icache = false;
  is_prefetch = false;
  hw_id = HwId.hardware 0;
}

-- The list of the entry that was read is cleared; the entry is still in the queue unless it was
-- freed.
abbrev pub clear_list : Ldstq → ℕ → LdstqEntry → Ldstq
clear_list q i e =
    if e.empty then q else record q { queue = set q.queue i (record e { forward_list = [] }) }

abbrev pub mark_forwarded : LdstqEntry → ℕ → LdstqEntry
mark_forwarded e f = record e { data_forwarded = true; forward_op = some f }

module _ (Cache : Type 0) (port : MemPort Cache) where
  -- What a cycle changes: the operations, the two queues and the cache.
  abbrev pub State : Type 0
  State = Ops × LsUnit × Cache

  -- A committed store goes to the cache, if that accepts it, and leaves the queue.
  unfoldable pub send_store : State → LdstqEntry → Option State
  send_store (ops, u, cache) e =
      let req = request ops e.op in
      if is_status (ops e.op).status commited
      then (if port.will_accept_transaction cache req
          then (port.recv_request cache req >>= λ cache'.
              free_entry ops u.stq e.op >>= λ q. some (ops, record u { stq = q }, cache'))
          else some (ops, u, cache))
      else some (ops, u, cache)

  -- The loads that wait for the data of a store get it once that is ready.
  unfoldable pub wake_loads : State → ℕ → LdstqEntry → Option State
  wake_loads (ops, u, cache) i e =
      if at_least (ops e.op).status ready
      then (do
        ops' ← do_forward_data ops u.ldq e.forward_list
        now ← get_elem? u.stq.queue i
        some (ops', record u { stq = clear_list u.stq i now }, cache))
      else some (ops, u, cache)

  -- One round of the loop over the store queue.
  unfoldable pub step_store : State → ℕ → Option State
  step_store s i = do
    e ← get_elem? s.1.stq.queue i
    if e.empty then some s else (send_store s e >>= λ s'. wake_loads s' i e)

  -- A load takes its data from the youngest older store of its address.
  unfoldable pub forward_from : State → ℕ → LdstqEntry → ℕ → Option State
  forward_from (ops, u, cache) i e j = do
    f ← get_elem? u.stq.queue j
    let slept = modify ops e.op (set_status sleep)
    let ldq = record u.ldq { queue = set u.ldq.queue i (mark_forwarded e f.op) }
    if at_least (slept f.op).status ready
        then some (modify slept e.op (set_finish true), record u { ldq = ldq }, cache)
        else some (
          slept,
          record u {
            ldq = ldq;
            stq = record u.stq {
              queue = set u.stq.queue j (record f { forward_list = f.forward_list ++ (e.op ∷ []) });
            };
          },
          cache,
        )

  -- Without such a store it goes to the cache, if that accepts it.
  unfoldable pub send_load : State → LdstqEntry → Option State
  send_load (ops, u, cache) e =
      let req = request ops e.op in
      if port.will_accept_transaction cache req
      then (port.recv_request cache req >>= λ cache'.
          some (modify ops e.op update_status, u, cache'))
      else some (ops, u, cache)

  -- One round of the loop over the load queue.
  unfoldable pub step_load : State → ℕ → Option State
  step_load s i = do
    e ← get_elem? s.1.ldq.queue i
    if e.empty
        then some s
        else if is_status (s.0 e.op).status issued
        then (forward_data s.0 s.1.stq e.op >>= λ found. elim found [
          | some j ↦ forward_from s i e j
          | none ↦ send_load s e
        ])
        else if is_status (s.0 e.op).status commited
        then (free_entry s.0 s.1.ldq e.op >>= λ q. some (s.0, record s.1 { ldq = q }, s.2))
        else some s

  -- A loop over the first `n` entries, in order, from entry `i` on.
  unfoldable pub each : (State → ℕ → Option State) → ℕ → ℕ → State → Option State
  each step zero i s = some s
  each step (suc n) i s = step s i >>= λ s'. each step n (suc i) s'

  unfoldable pub process : State → Option State
  unfolding step_store step_load each
  process s = do
    s' ← each step_store (length s.1.stq.queue) 0 s
    each step_load (length s'.1.ldq.queue) 0 s'
