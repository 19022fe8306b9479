-- ===== src/Cache/Tests.antt =====
-- A first-level cache on concrete inputs (sim/src/mem/cache.cpp), and the theorems at it.
use cisim.Prelude.{
  ℕ, ◌+◌, ◌≡◌, refl, ◌>>=◌, arith, true, false, if◌then◌else◌, [], ◌∷◌, All, none, some,
}
use cisim.Prelude.Dict.{lookup, erase}
use cisim.Prelude.Dict
use cisim.PriorityQueue.{tally}
use cisim.MemTransaction.{MemTransaction, HwId}
use cisim.CacheSet.{CacheSet, new_line}
use cisim.CacheSet.Rep.{filled}
use cisim.CacheSet
use cisim.FunctionalCache.{FunctionalCache, log2, get_tag, extract, insert, join}
use cisim.FunctionalCache
use cisim.FunctionalCache.Valid
use cisim.FunctionalCache.Start.{start-IsValid}
use cisim.Cache.{
  Cache, init, process, handle_response, complete_transaction, update_mshr, recv_request,
  will_accept_transaction,
}
use cisim.Cache.FirstLevel.{send_requests}
use cisim.Cache.Conserve.{IsReady, Conserves, passes, process-Conserves}
use cisim.Cache.Ports.{IsBounded, IsProper, Delivers, dirty_weight, send_requests-Delivers}

abbrev load : ℕ → MemTransaction
load addr = record {
  op = some 7;
  dyn_id = 7;
  addr = addr;
  is_load_req = true;
  from_icache = false;
  is_prefetch = false;
  hw_id = HwId.hardware 0;
}

-- Two sets of two lines of 16 bytes, and an MSHR of 4.
abbrev first_level : Cache
first_level = init 4 1 false 2 16 64 2 4 (some 2) (some 2)

small-IsValid : Valid.IsValid first_level.fc
unfolding init log2
small-IsValid = start-IsValid 64 2 16 (omega arith) (omega arith) (omega arith) (omega arith)

-- Two loads of one line are in the queue.
abbrev two_queued : Cache
two_queued = record first_level { pq = (load 1234, 0) ∷ (load 1236, 0) ∷ [] }

two_queued-IsReady : IsReady 1 two_queued
unfolding init
two_queued-IsReady = record {
  uses = refl;
  at_level = refl;
  mshr_ok = record { sorted = tt; bound = omega arith };
  valid = small-IsValid;
}

abbrev weight : MemTransaction → ℕ
weight t = if passes 1 t then 0 else 1

weight-ignores : (t : MemTransaction) → passes 1 t ≡ true → weight t ≡ 0
weight-ignores t h = rw h refl

process-Conserves_example :
    (c' : Cache) × (process 1 (λ s t. false) two_queued ≡ some c')
    × Conserves 1 1 (λ s t. false) (omega arith) weight weight-ignores two_queued.pq two_queued c'
process-Conserves_example =
    process-Conserves 1 1 (λ s t. false) (omega arith) weight weight-ignores two_queued
      two_queued-IsReady (omega arith, (omega arith, tt)) ((omega arith, tt), (tt, tt))

-- One set of one line of 16 bytes, with the line of address 48.
abbrev tiny : Cache
tiny = init 4 1 false 1 16 16 1 4 (some 2) (some 2)

abbrev full : FunctionalCache
full = record tiny.fc {
  sets = filled (record (CacheSet.init 1) { free_entries = [] }) 0 (new_line 3 0 0 7 true) ∷ [];
}

-- Two loads wait for a line that is not there.
abbrev one_waits : Cache
one_waits = record tiny { fc = full; mshr = (77, load 1234 ∷ load 1236 ∷ []) ∷ [] }

-- The line of address 48 leaves.
evicted_example :
    (handle_response 1 (λ s t. false) one_waits (load 1234) >>= λ c. some c.evict_addresses)
    ≡ some ((48, false) ∷ [])
unfolding init handle_response complete_transaction update_mshr FunctionalCache.init log2 extract
    insert join CacheSet.init CacheSet.insert lookup erase CacheSet.insert_front
evicted_example = refl

-- One request and two evicted lines, one of them dirty; the next level has one port to store left.
abbrev sender : Cache
sender = record first_level {
  outcoming_requests = load 1234 ∷ [];
  evict_addresses = (64, true) ∷ (80, false) ∷ [];
}

abbrev next_level : Cache
next_level = record (init 4 2 false 8 32 256 2 4 (some 1) (some 1)) { free_prefetch_ports = 0 }

next_level-IsBounded : IsBounded next_level
unfolding init
next_level-IsBounded = record { loads = (1, 1, refl, refl); stores = (1, 1, refl, refl) }

send_requests-Delivers_example :
    (c' : Cache) × (next' : Cache) × (send_requests sender next_level ≡ some (c', next'))
    × Delivers weight next_level
        (tally weight sender.outcoming_requests + dirty_weight weight sender.evict_addresses)
        c'.outcoming_requests
        next'
    × All IsProper c'.outcoming_requests
    × (c'.evict_addresses ≡ [])
send_requests-Delivers_example =
    send_requests-Delivers weight sender next_level next_level-IsBounded ((λ h. absurd (cc)), tt)

-- A request for a level without a bound on its ports is accepted, and its receipt fails an assertion.
unbounded_example :
    (will_accept_transaction (init 4 2 false 8 32 256 2 4 none none) (load 64) ≡ true)
    × (recv_request (init 4 2 false 8 32 256 2 4 none none) (load 64) ≡ none)
unfolding init will_accept_transaction recv_request
unbounded_example = (refl, refl)
