-- ===== src/Cache/SecondLevel.antt =====
-- The second level (`L2Cache` of sim/src/mem/cache.cpp): it serves the two first-level caches, and a
-- line that leaves it also leaves them.
use cisim.Prelude.{ℕ, ◌+◌, Bool, ◌||◌, if◌then◌else◌, List, [], ◌∷◌, Option, some, ◌>>=◌}
use cisim.MemTransaction.{MemTransaction}
use cisim.Cache.{
  Cache, process, handle_requests, handle_responses, end_cycle, send_to_next, write_back,
  recv_response, invalidate, check_evict_conflict,
}

-- The two caches before it and itself.
pub record Levels : Type 0 where
  pub icache : Cache
  pub dcache : Cache
  pub own : Cache

-- `sendResponses`: to the instruction cache or to the data cache.
unfoldable pub send_responses : List MemTransaction → Levels → Levels
unfolding recv_response
send_responses [] v = record v { own = record v.own { outcoming_responses = [] } }
send_responses (resp ∷ resps) v = send_responses resps (
    if resp.from_icache
    then record v { icache = recv_response v.icache resp }
    else record v { dcache = recv_response v.dcache resp })

module _ (over : ℕ) (ahead : MemTransaction → MemTransaction → Bool) where
  -- `invalidate` of the two caches before this one: true if either line was dirty.
  unfoldable pub invalidate_before : Levels → ℕ → Option (Levels × Bool)
  unfolding invalidate
  invalidate_before v address = do
    (icache, dirty) ← invalidate over ahead v.icache address
    (dcache, dirty') ← invalidate over ahead v.dcache address
    some (record v { icache = icache; dcache = dcache }, dirty || dirty')

  -- `invalidate` of this one.
  unfoldable pub invalidate_all : Levels → ℕ → Option (Levels × Bool)
  unfolding invalidate invalidate_before
  invalidate_all v address = do
    (own, dirty) ← invalidate over ahead v.own address
    (v', dirty') ← invalidate_before (record v { own = own }) address
    some (v', dirty || dirty')

  -- The loop over the evicted addresses.
  unfoldable pub write_back_all : List (ℕ × Bool) → Levels → Cache → Option (Levels × Cache)
  unfolding invalidate_before check_evict_conflict write_back
  write_back_all [] v next = some (record v { own = record v.own { evict_addresses = [] } }, next)
  write_back_all ((addr, dirty) ∷ rest) v next = do
    (v', before) ← invalidate_before v addr
    (own, next') ←
        if dirty || (before || check_evict_conflict over ahead v'.own addr)
        then write_back v'.own next addr
        else some (v'.own, next)
    write_back_all rest (record v' { own = own }) next'

  -- `sendRequests`
  unfoldable pub send_requests : Levels → Cache → Option (Levels × Cache)
  unfolding send_to_next write_back_all
  send_requests v next = do
    (kept, stalls, next') ← send_to_next v.own.outcoming_requests next
    let own = record v.own { outcoming_requests = kept; port_stall = v.own.port_stall + stalls }
    write_back_all own.evict_addresses (record v { own = own }) next'

  -- `process`
  unfoldable pub process_second : Levels → Cache → Option (Levels × Cache)
  unfolding send_responses send_requests handle_requests process handle_responses
  process_second v next = do
    let answered = send_responses v.own.outcoming_responses v
    (v', next') ← send_requests answered next
    c ← process over ahead (handle_requests over ahead v'.own.incoming_requests v'.own)
    c' ← handle_responses over ahead c.incoming_responses c
    some (record v' { own = end_cycle c' }, next')
