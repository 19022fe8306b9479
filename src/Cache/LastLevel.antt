-- ===== src/Cache/LastLevel.antt =====
-- The last level (`LLCache` of sim/src/mem/cache.cpp), before the memory interface.
use cisim.Prelude.{
  ℕ, ◌*◌, ◌/◌, Bool, false, ◌||◌, if◌then◌else◌, List, [], ◌∷◌, ◌++◌, Option, none, some, ◌>>=◌,
}
use cisim.MemTransaction.{MemTransaction, is_evict}
use cisim.DramInterface.{DramInterface}
use cisim.DramInterface
use cisim.Cache.{
  Cache, process, handle_requests, handle_responses, end_cycle, recv_response, check_evict_conflict,
}
use cisim.Cache.SecondLevel.{Levels, invalidate_all}

-- The caches before it, itself and the memory.
pub record Memory : Type 0 where
  pub levels : Levels
  pub own : Cache
  pub dram : DramInterface

-- `sendResponses`
unfoldable pub send_responses : List MemTransaction → Memory → Memory
unfolding recv_response
send_responses [] m = record m { own = record m.own { outcoming_responses = [] } }
send_responses (resp ∷ resps) m =
    send_responses resps
      (record m { levels = record m.levels { own = recv_response m.levels.own resp } })

-- The address of the start of the line.
abbrev pub dram_addr : Cache → ℕ → ℕ
dram_addr c addr = addr / c.cache_line_size * c.cache_line_size

-- What a request is for the memory: an eviction is a write, and the rest reads, also for a store; but
-- a store asks for a port to write.
abbrev pub asks_read : MemTransaction → Bool
asks_read t = if is_evict t then false else t.is_load_req

abbrev pub sent_as : MemTransaction → Option MemTransaction
sent_as t = if is_evict t then none else some t

-- The loop of `sendRequests` over the requests, with those that stay so far.
unfoldable pub send_to_dram : List MemTransaction → List MemTransaction → Memory → Option Memory
unfolding DramInterface.will_accept_transaction DramInterface.add_transaction
send_to_dram kept [] m = some (record m { own = record m.own { outcoming_requests = kept } })
send_to_dram kept (t ∷ ts) m = do
  let addr = dram_addr m.own t.addr
  accepts ← DramInterface.will_accept_transaction m.dram addr (asks_read t)
  dram ←
      if accepts
      then DramInterface.add_transaction (sent_as t) addr m.own.cycle m.dram
      else some m.dram
  send_to_dram (if accepts then kept else kept ++ t ∷ []) ts (record m { dram = dram })

module _ (over : ℕ) (ahead : MemTransaction → MemTransaction → Bool) where
  -- One evicted address for which the memory has a port.
  unfoldable pub write_back : Memory → ℕ → Bool → Option Memory
  unfolding invalidate_all check_evict_conflict DramInterface.add_transaction
  write_back m addr dirty = do
    (levels, before) ← invalidate_all over ahead m.levels addr
    let m' = record m { levels = levels }
    if dirty || (before || check_evict_conflict over ahead m.own addr)
        then (DramInterface.add_transaction none (dram_addr m.own addr) m.own.cycle m.dram
            >>= λ dram. some (record m' { dram = dram }))
        else some m'

  -- The loop over the evicted addresses, with those that stay so far.
  unfoldable pub write_back_all : List (ℕ × Bool) → List (ℕ × Bool) → Memory → Option Memory
  unfolding write_back DramInterface.will_accept_transaction
  write_back_all kept [] m = some (record m { own = record m.own { evict_addresses = kept } })
  write_back_all kept ((addr, dirty) ∷ rest) m = do
    accepts ← DramInterface.will_accept_transaction m.dram (dram_addr m.own addr) false
    m' ← if accepts then write_back m addr dirty else some m
    write_back_all (if accepts then kept else kept ++ (addr, dirty) ∷ []) rest m'

  -- `sendRequests`
  unfoldable pub send_requests : Memory → Option Memory
  unfolding send_to_dram write_back_all
  send_requests m = do
    m' ← send_to_dram [] m.own.outcoming_requests m
    write_back_all [] m'.own.evict_addresses m'

  -- `process`
  unfoldable pub process_last : Memory → Option Memory
  unfolding send_responses send_requests handle_requests process handle_responses
  process_last m = do
    m' ← send_requests (send_responses m.own.outcoming_responses m)
    c ← process over ahead (handle_requests over ahead m'.own.incoming_requests m'.own)
    c' ← handle_responses over ahead c.incoming_responses c
    some (record m' { own = end_cycle c' })

-- `process` of the memory interface, whose responses go to this cache.
unfoldable pub process_dram : Memory → Option Memory
unfolding DramInterface.process
process_dram m = do
  (dram, sent) ← DramInterface.process m.dram
  some (record m {
    dram = dram;
    own = record m.own { incoming_responses = m.own.incoming_responses ++ sent };
  })
