-- ===== src/Ifu.antt =====
-- The instruction fetch unit (`IFU` of sim/include/ifu.h and sim/src/ifu.cpp) over the first-level
-- instruction cache. `uid` gives the number of the static instruction of an operation.
pub mod Run
pub mod Demand
mod Tests
use cisim.Prelude.{
  ℕ, zero, suc, ◌+◌, ◌-◌, ◌%◌, ◌^◌, Bool, true, false, not, ◌&&◌, ltb, leb, ◌==◌, if◌then◌else◌,
  List, [], ◌∷◌, ◌++◌, length, get_elem?, Option, none, some, ◌>>=◌, ◌>>◌, assert,
}
use cisim.Operation.{Ops}
use cisim.MemTransaction.{MemTransaction, HwId}
use cisim.Cache.{Cache, will_accept_transaction, recv_request}
use cisim.Cache.FirstLevel.{sign_extend}

-- `pf_ptr` and the prefetched addresses are bit patterns of `int`s.
pub record Ifu : Type 0 where
  pub package_size : ℕ
  pub occupied : Bool
  pub responses : List MemTransaction
  pub prefetched_addrs : List ℕ
  pub pf_ptr : ℕ

abbrev pub init : Ifu
init = record {
  package_size = 16;
  occupied = false;
  responses = [];
  prefetched_addrs = [];
  pf_ptr = 0;
}

unfoldable pub recv_response : Ifu → MemTransaction → Ifu
recv_response u resp = record u { responses = u.responses ++ resp ∷ [] }

-- `sendReqToCache`
unfoldable pub send_req_to_cache : Ifu → Cache → MemTransaction → Option (Ifu × Cache)
send_req_to_cache u cache req =
    recv_request cache req >>= λ cache'. some (record u { occupied = true }, cache')

-- `count` of an address among the prefetched ones, as far as it is 0 or not.
abbrev pub is_prefetched : ℕ → List ℕ → Bool
is_prefetched address [] = false
is_prefetched address (a ∷ as') =
    let later = is_prefetched address as' in if sign_extend a == address then true else later

-- At most 32 addresses are kept: the oldest leaves.
abbrev pub remember : ℕ → List ℕ → List ℕ
remember address [] = address % 2 ^ 32 ∷ []
remember address (a ∷ as') =
    if leb 32 (length (a ∷ as'))
    then as' ++ address % 2 ^ 32 ∷ []
    else a ∷ as' ++ address % 2 ^ 32 ∷ []

module _ (ops : Ops) (uid : ℕ → ℕ) where
  abbrev pub fetch_request : ℕ → MemTransaction
  fetch_request op = record {
    op = some op;
    dyn_id = (ops op).dyn_id % 2 ^ 32;
    addr = uid op;
    is_load_req = true;
    from_icache = true;
    is_prefetch = false;
    hw_id = HwId.hardware 0;
  }

  abbrev pub prefetch_request : ℕ → MemTransaction
  prefetch_request op = record (fetch_request op) { is_prefetch = true; hw_id = HwId.no_hardware }

  -- The second half of `IF0`.
  unfoldable pub prefetch : Ifu → Cache → List ℕ → Option (Ifu × Cache)
  unfolding send_req_to_cache
  prefetch u cache ftq =
      if ltb (sign_extend u.pf_ptr) (length ftq)
      then (get_elem? ftq (sign_extend u.pf_ptr) >>= λ op.
          if is_prefetched (uid op) u.prefetched_addrs
          then some (u, cache)
          else (let u' = record u { prefetched_addrs = remember (uid op) u.prefetched_addrs } in
              if will_accept_transaction cache (prefetch_request op)
              then send_req_to_cache u' cache (prefetch_request op)
              else some (u', cache)))
      else some (u, cache)

  -- The first half: the request for the oldest target, if none is under way and the cache accepts it.
  unfoldable pub demand : Ifu → Cache → ℕ → List ℕ → Option (Ifu × Cache × List ℕ)
  unfolding send_req_to_cache
  demand u cache op ftq =
      if not u.occupied && will_accept_transaction cache (fetch_request op)
      then (send_req_to_cache u cache (fetch_request op) >>= λ (u', cache').
          some (record u' { pf_ptr = (u'.pf_ptr + 2 ^ 32 - 1) % 2 ^ 32 }, cache', ftq))
      else some (u, cache, op ∷ ftq)

  -- `IF0`; it also returns the fetch target queue.
  unfoldable pub if0 : Ifu → Cache → List ℕ → Option (Ifu × Cache × List ℕ)
  unfolding demand prefetch
  if0 u cache [] = some (u, cache, [])
  if0 u cache (op ∷ ftq) = do
    (u', cache', ftq') ← demand (record u { pf_ptr = (u.pf_ptr + 1) % 2 ^ 32 % 32 }) cache op ftq
    (u'', cache'') ← prefetch u' cache' ftq'
    some (u'', cache'', ftq')

  -- The loop of `IF1`, for up to `n` operations whose numbers follow on `next`: the operations that
  -- are left and the instruction queue.
  unfoldable pub take_run : ℕ → ℕ → List ℕ → List ℕ → List ℕ × List ℕ
  take_run zero next processed queue = (processed, queue)
  take_run (suc n) next [] queue = ([], queue)
  take_run (suc n) next (op ∷ processed) queue =
      let taken = take_run n (next + 1) processed (queue ++ op ∷ []) in
      if uid op == next then taken else (op ∷ processed, queue)

  abbrev pub front_has : ℕ → List ℕ → Option Bool
  front_has next [] = none
  front_has next (op ∷ processed) = some (uid op == next)

  -- What `IF1` does for a response to an operation that is not squashed.
  unfoldable pub deliver : Ifu → ℕ → List ℕ → List ℕ → Option (Ifu × List ℕ × List ℕ)
  unfolding take_run
  deliver u op processed queue = do
    same ← front_has (uid op) processed
    assert same
    let (processed', queue') = take_run u.package_size (uid op) processed queue
    some (record u { responses = []; occupied = false }, processed', queue')

  -- `IF1`
  unfoldable pub if1 : Ifu → List ℕ → List ℕ → Option (Ifu × List ℕ × List ℕ)
  unfolding deliver
  if1 u processed queue = assert (leb (length u.responses) 1) >> elim u.responses [
    | [] ↦ some (u, processed, queue)
    | resp ∷ resps ↦ elim resp.op [
      | none ↦ some (u, processed, queue)
      | some op ↦
          if (ops op).is_squashed then some (u, processed, queue) else deliver u op processed queue
    ]
  ]
