-- ===== src/Cache/FirstLevel.antt =====
-- The first level (`L1Cache` of sim/src/mem/cache.cpp), for data or for instructions, with its
-- prefetcher.
use cisim.Prelude.{
  ℕ, zero, suc, ◌+◌, ◌-◌, ◌*◌, ◌%◌, ◌^◌, Bool, true, false, not, ◌&&◌, ltb, ◌==◌, if◌then◌else◌,
  List, [], ◌∷◌, ◌++◌, length, Option, none, some, ◌>>=◌,
}
use cisim.Prelude.Dict.{lookup}
use cisim.Prelude.Dict
use cisim.MemTransaction.{MemTransaction, HwId, is_hardware}
use cisim.Cache.{
  Cache, add_transaction, add_prefetch, process, handle_responses, end_cycle, send_to_next,
  write_back,
}

-- What `sendResponses` gives to the load and store unit and to the fetch unit.
abbrev pub to_lsu : List MemTransaction → List MemTransaction
to_lsu [] = []
to_lsu (t ∷ ts) =
    if not t.is_prefetch && (t.is_load_req && not t.from_icache) then t ∷ to_lsu ts else to_lsu ts

abbrev pub to_ifu : List MemTransaction → List MemTransaction
to_ifu [] = []
to_ifu (t ∷ ts) =
    if not t.is_prefetch && (t.is_load_req && t.from_icache) then t ∷ to_ifu ts else to_ifu ts

unfoldable pub send_responses : Cache → Cache × List MemTransaction × List MemTransaction
send_responses c = (
  record c { outcoming_responses = [] },
  to_lsu c.outcoming_responses,
  to_ifu c.outcoming_responses,
)

-- The loop over the evicted addresses: only dirty ones are sent on.
unfoldable pub write_back_all : List (ℕ × Bool) → Cache → Cache → Option (Cache × Cache)
unfolding write_back
write_back_all [] c next = some (record c { evict_addresses = [] }, next)
write_back_all ((addr, dirty) ∷ rest) c next = do
  (c', next') ← if dirty then write_back c next addr else some (c, next)
  write_back_all rest c' next'

-- `sendRequests`
unfoldable pub send_requests : Cache → Cache → Option (Cache × Cache)
unfolding send_to_next write_back_all
send_requests c next = do
  (kept, stalls, next') ← send_to_next c.outcoming_requests next
  write_back_all c.evict_addresses
      (record c { outcoming_requests = kept; port_stall = c.port_stall + stalls }) next'

-- An `int` from its bit pattern, as an `uint64_t`.
abbrev pub sign_extend : ℕ → ℕ
sign_extend n = if ltb n (2 ^ 31) then n else n + 2 ^ 64 - 2 ^ 32

-- `addr - last_addr` as an `int`.
abbrev pub stride_from : ℕ → ℕ → ℕ
stride_from last addr = (addr + 2 ^ 64 - last) % 2 ^ 32

-- The key of a counter, an `int`, moved up.
abbrev pub key_of : ℕ → ℕ
key_of pc = (pc + 2 ^ 31) % 2 ^ 32

-- The address of prefetch `i`: the product is an `int`, whose overflow wraps here.
abbrev pub prefetch_addr : Cache → ℕ → ℕ → ℕ → ℕ
prefetch_addr c addr stride i =
    (addr + sign_extend ((stride + i) * c.cache_line_size % 2 ^ 32)) % 2 ^ 64

abbrev pub prefetch_transaction : ℕ → ℕ → ℕ → MemTransaction
prefetch_transaction op dyn_id addr = record {
  op = some op;
  dyn_id = dyn_id;
  addr = addr;
  is_load_req = true;
  from_icache = false;
  is_prefetch = true;
  hw_id = HwId.no_hardware;
}

-- `prefetch_map.erase(prefetch_map.begin())` where the map is above its size, 128.
abbrev pub drop_first : List (ℕ × (ℕ × ℕ)) → List (ℕ × (ℕ × ℕ))
drop_first [] = []
drop_first (first ∷ rest) = rest

abbrev pub trim : List (ℕ × (ℕ × ℕ)) → List (ℕ × (ℕ × ℕ))
trim m = if ltb 128 (length m) then drop_first m else m

module _ (over : ℕ) (ahead : MemTransaction → MemTransaction → Bool) (uid : ℕ → ℕ) where
  abbrev pub issue_prefetch : Cache → MemTransaction → Cache
  issue_prefetch c t =
      if ltb 0 c.free_prefetch_ports
      then add_prefetch over ahead c t (2 ^ 64 - 1)
      else record c { to_prefetch = c.to_prefetch ++ t ∷ [] }

  -- Prefetches `i` and the `n - 1` after it.
  unfoldable pub prefetch_lines : ℕ → ℕ → ℕ → MemTransaction → ℕ → Cache → Cache
  unfolding add_prefetch
  prefetch_lines zero i op req stride c = c
  prefetch_lines (suc n) i op req stride c =
      prefetch_lines n (suc i) op req stride
        (issue_prefetch c (prefetch_transaction op req.dyn_id (prefetch_addr c req.addr stride i)))

  -- A second equal stride of a counter, other than -1, starts 8 prefetches.
  unfoldable pub learn : ℕ → MemTransaction → Cache → Cache
  unfolding prefetch_lines
  learn op req c = elim (lookup (key_of (uid op)) c.prefetch_map) [
    | none ↦ record c {
      prefetch_map = trim (Dict.insert (key_of (uid op)) (req.addr, 2 ^ 32 - 1) c.prefetch_map);
    }
    | some (last, old_stride) ↦
        let stride = stride_from last req.addr in
        let c' =
          if not (old_stride == 2 ^ 32 - 1) && stride == old_stride
          then prefetch_lines 8 0 op req stride c
          else c in
        record c' {
          prefetch_map = trim (Dict.insert (key_of (uid op)) (req.addr, stride) c'.prefetch_map);
        }
  ]

  -- One request of `handleRequests`. A request of hardware has an operation.
  unfoldable pub handle_request : Cache → MemTransaction → Option Cache
  unfolding add_transaction learn
  handle_request c req =
      let c' = add_transaction over ahead c req (2 ^ 64 - 1) in
      if is_hardware req && not c.is_icache
      then (req.op >>= λ op. some (learn op req c'))
      else some c'

  unfoldable pub handle_requests : List MemTransaction → Cache → Option Cache
  unfolding handle_request
  handle_requests [] c = some (record c { incoming_requests = [] })
  handle_requests (req ∷ reqs) c = handle_request c req >>= λ c'. handle_requests reqs c'

  -- The loop of `process` over `to_prefetch`, which stays as it is.
  unfoldable pub prefetch_waiting : List MemTransaction → Cache → Cache
  unfolding add_prefetch
  prefetch_waiting [] c = c
  prefetch_waiting (t ∷ ts) c =
      let next = prefetch_waiting ts (add_prefetch over ahead c t (2 ^ 64 - 1)) in
      if ltb 0 c.free_prefetch_ports then next else c

  -- `process`, with the next cache; it also returns the responses for the load and store unit and for
  -- the fetch unit.
  unfoldable pub process_first :
      Cache → Cache → Option (Cache × Cache × List MemTransaction × List MemTransaction)
  unfolding send_responses send_requests handle_requests prefetch_waiting process handle_responses
  process_first c next = do
    let (c1, lsu, ifu) = send_responses c
    (c2, next') ← send_requests c1 next
    c3 ← handle_requests c2.incoming_requests c2
    c4 ← process over ahead (prefetch_waiting c3.to_prefetch c3)
    c5 ← handle_responses over ahead c4.incoming_responses c4
    some (record (end_cycle c5) { free_prefetch_ports = 4 }, next', lsu, ifu)
