-- ===== src/Cache.antt =====
-- A level of the cache hierarchy (`Cache` of sim/include/mem/cache.h and sim/src/mem/cache.cpp): what the
-- three levels share. `FirstLevel`, `SecondLevel` and `LastLevel` are the classes below it.
pub mod Mshr
pub mod Conserve
pub mod Responses
pub mod Ports
pub mod FirstLevel
pub mod SecondLevel
pub mod LastLevel
mod Tests
use cisim.Prelude.{
  ℕ, zero, suc, ◌+◌, ◌-◌, ◌*◌, ◌/◌, ◌%◌, ◌^◌, Bool, true, false, not, ◌&&◌, ◌||◌, ltb, leb, ◌==◌,
  if◌then◌else◌, List, [], ◌∷◌, ◌++◌, length, Option, none, some, ◌>>=◌, ◌>>◌, assert,
}
use cisim.Prelude.Dict.{lookup, erase}
use cisim.Prelude.Dict
use cisim.PriorityQueue.{push}
use cisim.PortCount.{has_port, take_port}
use cisim.MemTransaction.{MemTransaction, HwId, is_evict}
use cisim.CacheSet.{CacheLine}
use cisim.FunctionalCache.{FunctionalCache, get_setid, get_tag}
use cisim.FunctionalCache

-- The pointers to other parts are not fields: the operations take what they point to. The fields of
-- the pattern detection that is switched off are left out. `mshr` is an `unordered_map`, whose order
-- nothing asks for. The keys of `prefetch_map` are moved up by 2 ^ 31, which keeps the order of `int`s;
-- its strides are bit patterns of `int`s.
pub record Cache : Type 0 where
  pub incoming_requests : List MemTransaction
  pub incoming_responses : List MemTransaction
  pub outcoming_requests : List MemTransaction
  pub outcoming_responses : List MemTransaction
  pub stalled_transactions : List MemTransaction
  pub pq : List (MemTransaction × ℕ)
  pub latency : ℕ
  pub cycle : ℕ
  pub fc : FunctionalCache
  pub cache_line_size : ℕ
  pub evict_addresses : List (ℕ × Bool)
  pub use_mshr : Bool
  pub mshr_size : ℕ
  pub mshr : List (ℕ × List MemTransaction)
  pub level : ℕ
  pub is_icache : Bool
  pub load_ports : Option ℕ
  pub store_ports : Option ℕ
  pub free_load_ports : Option ℕ
  pub free_store_ports : Option ℕ
  pub free_prefetch_ports : ℕ
  pub to_prefetch : List MemTransaction
  pub prefetch_map : List (ℕ × (ℕ × ℕ))
  pub nhit : ℕ
  pub nmiss : ℕ
  pub port_stall : ℕ
  pub read_accesses : ℕ
  pub write_accesses : ℕ
  pub read_misses : ℕ
  pub write_misses : ℕ

-- The constructors of the levels. `junk` is what memory holds where `free_prefetch_ports` is not yet
-- written. Without an MSHR the size keeps its default.
unfoldable pub init : ℕ → ℕ → Bool → ℕ → ℕ → ℕ → ℕ → ℕ → Option ℕ → Option ℕ → Cache
init junk level is_icache latency line_size size assoc mshr store_ports load_ports = record {
  incoming_requests = [];
  incoming_responses = [];
  outcoming_requests = [];
  outcoming_responses = [];
  stalled_transactions = [];
  pq = [];
  latency = latency;
  cycle = 0;
  fc = FunctionalCache.init size assoc line_size;
  cache_line_size = line_size;
  evict_addresses = [];
  use_mshr = not (mshr == 0);
  mshr_size = if mshr == 0 then 8 else mshr;
  mshr = [];
  level = level;
  is_icache = is_icache;
  load_ports = load_ports;
  store_ports = store_ports;
  free_load_ports = load_ports;
  free_store_ports = store_ports;
  free_prefetch_ports = junk;
  to_prefetch = [];
  prefetch_map = [];
  nhit = 0;
  nmiss = 0;
  port_stall = 0;
  read_accesses = 0;
  write_accesses = 0;
  read_misses = 0;
  write_misses = 0;
}

-- The number of the line of an address; the line size is not 0.
abbrev pub line_of : Cache → ℕ → ℕ
line_of c addr = addr / c.cache_line_size

abbrev pub take_prefetch_port : ℕ → Option ℕ
take_prefetch_port zero = none
take_prefetch_port (suc n) = some n

unfoldable pub recv_request : Cache → MemTransaction → Option Cache
recv_request c req =
    let c' = record c { incoming_requests = c.incoming_requests ++ req ∷ [] } in
    if req.is_load_req
    then (take_port c.free_load_ports >>= λ free. some (record c' { free_load_ports = free }))
    else if req.is_prefetch
    then (take_prefetch_port c.free_prefetch_ports >>= λ free.
        some (record c' { free_prefetch_ports = free }))
    else (take_port c.free_store_ports >>= λ free. some (record c' { free_store_ports = free }))

unfoldable pub recv_response : Cache → MemTransaction → Cache
recv_response c resp = record c { incoming_responses = c.incoming_responses ++ resp ∷ [] }

-- `cache_prefetch_ports` is 4.
unfoldable pub will_accept_transaction : Cache → MemTransaction → Bool
will_accept_transaction c t =
    if is_evict t
    then has_port c.store_ports c.free_store_ports
    else if t.is_load_req
    then has_port c.load_ports c.free_load_ports
    else if t.is_prefetch
    then ltb 0 c.free_prefetch_ports
    else has_port c.store_ports c.free_store_ports

-- `flush`
unfoldable pub flush : Cache → Cache
flush c = record c { incoming_requests = []; pq = [] }

-- `enterMSHR`, true if the MSHR is full; the line that is looked up goes with what is found.
abbrev pub enter_at : Cache → MemTransaction → Option (List MemTransaction) → Cache × Bool
enter_at c t none = if leb c.mshr_size (length c.mshr) then (c, true) else (
  record c {
    mshr = Dict.insert (line_of c t.addr) (t ∷ []) c.mshr;
    outcoming_requests = c.outcoming_requests ++ t ∷ [];
  },
  false,
)
enter_at c t (some waiting) =
    (record c { mshr = Dict.insert (line_of c t.addr) (waiting ++ t ∷ []) c.mshr }, false)

unfoldable pub enter_mshr : Cache → MemTransaction → Cache × Bool
enter_mshr c t = enter_at c t (lookup (line_of c t.addr) c.mshr)

-- `updateMSHR`: all that wait for the line get their response.
unfoldable pub update_mshr : Cache → MemTransaction → Option Cache
update_mshr c t = do
  ops ← lookup (line_of c t.addr) c.mshr
  some (record c {
    outcoming_responses = c.outcoming_responses ++ ops;
    mshr = erase (line_of c t.addr) c.mshr;
  })

-- The loop of `process` over the stalled transactions, with those that stay stalled so far.
unfoldable pub retry : List MemTransaction → List MemTransaction → Cache → Cache
unfolding enter_mshr
retry kept [] c = record c { stalled_transactions = kept }
retry kept (t ∷ ts) c =
    let entered = enter_mshr c t in retry (if entered.1 then kept ++ t ∷ [] else kept) ts entered.0

-- The transaction waits in the MSHR, or is stalled.
unfoldable pub wait : Cache → MemTransaction → Cache
unfolding enter_mshr
wait c t =
    let entered = enter_mshr c t in
    if entered.1
    then record entered.0 { stalled_transactions = entered.0.stalled_transactions ++ t ∷ [] }
    else entered.0

abbrev pub request_out : Cache → MemTransaction → Cache
request_out c t = record c { outcoming_requests = c.outcoming_requests ++ t ∷ [] }

abbrev pub count_access : Cache → MemTransaction → Cache
count_access c t = record c {
  read_accesses = if t.is_load_req then c.read_accesses + 1 else c.read_accesses;
  write_accesses = if t.is_load_req then c.write_accesses else c.write_accesses + 1;
}

abbrev pub count_miss : Cache → MemTransaction → Cache
count_miss c t = record c {
  read_misses = if t.is_load_req then c.read_misses + 1 else c.read_misses;
  write_misses = if t.is_load_req then c.write_misses else c.write_misses + 1;
}

-- A prefetch of the first level passes by the MSHR.
abbrev pub passes_by : Cache → MemTransaction → Bool
passes_by c t = c.level == 1 && t.is_prefetch

unfoldable pub miss : Cache → MemTransaction → Cache
unfolding wait
miss c t =
    let c' = record c { nmiss = c.nmiss + 1 } in
    count_miss
      (if c.use_mshr
        then (if passes_by c t then request_out c' t else wait c' t)
        else request_out c' t)
      t

abbrev pub hit_response : Cache → MemTransaction → Cache
hit_response c t = record c {
  outcoming_responses = c.outcoming_responses ++ t ∷ [];
  nhit = c.nhit + 1;
}

-- `over` is what a shift by 64 gives; `ahead` says which of two transactions of one cycle leaves the
-- priority queue first, which the library leaves open.
module _ (over : ℕ) (ahead : MemTransaction → MemTransaction → Bool) where
  abbrev pub before : MemTransaction × ℕ → MemTransaction × ℕ → Bool
  before l r = ltb l.1 r.1 || (l.1 == r.1 && ahead l.0 r.0)

  abbrev pub due : Cache → ℕ → ℕ
  due c extra_lat = (c.cycle + c.latency + extra_lat) % 2 ^ 64

  unfoldable pub add_transaction : Cache → MemTransaction → ℕ → Cache
  add_transaction c t extra_lat = record c { pq = push before (t, due c extra_lat) c.pq }

  -- `addPrefetch`: it is called where a port is free.
  unfoldable pub add_prefetch : Cache → MemTransaction → ℕ → Cache
  add_prefetch c t extra_lat = record c {
    pq = push before (t, due c extra_lat) c.pq;
    free_prefetch_ports = c.free_prefetch_ports - 1;
  }

  -- One transaction that is due.
  unfoldable pub serve_one : Cache → MemTransaction → Option Cache
  unfolding miss
  serve_one c t = do
    (fc, hit) ← FunctionalCache.access over c.fc t.addr t.dyn_id t.is_load_req
    let c' = record (count_access c t) { fc = fc }
    some (if is_evict t then c' else if hit then hit_response c' t else miss c' t)

  -- The loop of `process` over the priority queue, which shrinks in each round.
  unfoldable pub serve : List (MemTransaction × ℕ) → Cache → Option Cache
  unfolding serve_one
  serve [] c = some (record c { pq = [] })
  serve ((t, cycle) ∷ rest) c =
      let served = serve_one c t >>= λ c'. serve rest c' in
      if ltb c.cycle cycle then some (record c { pq = (t, cycle) ∷ rest }) else served

  unfoldable pub process : Cache → Option Cache
  unfolding retry serve
  process c = let c' = retry [] c.stalled_transactions c in serve c'.pq c'

  -- `handleRequests`, with an extra latency of -1.
  unfoldable pub handle_requests : List MemTransaction → Cache → Cache
  unfolding add_transaction
  handle_requests [] c = record c { incoming_requests = [] }
  handle_requests (req ∷ reqs) c = handle_requests reqs (add_transaction c req (2 ^ 64 - 1))

  -- `completeTransaction`: an evicted address is a nonnegative `int64_t`.
  abbrev pub note_evicted : Cache → Option CacheLine → Option ℕ → Option Cache
  note_evicted c none out = some c
  note_evicted c (some l) none = some c
  note_evicted c (some l) (some addr) =
      if addr == 2 ^ 64 - 1
      then some c
      else (assert (ltb addr (2 ^ 63))
          >> some (record c { evict_addresses = c.evict_addresses ++ (addr, l.dirty) ∷ [] }))

  unfoldable pub complete_transaction : Cache → MemTransaction → Option Cache
  complete_transaction c t = do
    (fc, evicted, out) ← FunctionalCache.insert over c.fc t.addr t.dyn_id t.is_load_req
    note_evicted (record c { fc = fc }) evicted out

  unfoldable pub handle_response : Cache → MemTransaction → Option Cache
  unfolding complete_transaction
  handle_response c resp = do
    c' ← complete_transaction c resp
    if c.use_mshr
        then (if passes_by c resp then some c' else update_mshr c' resp)
        else some (record c' { outcoming_responses = c'.outcoming_responses ++ resp ∷ [] })

  -- `handleResponses`
  unfoldable pub handle_responses : List MemTransaction → Cache → Option Cache
  unfolding handle_response
  handle_responses [] c = some (record c { incoming_responses = [] })
  handle_responses (resp ∷ resps) c = handle_response c resp >>= λ c'. handle_responses resps c'

  -- `checkEvictConflict`: a copy of the priority queue is emptied.
  unfoldable pub conflicts_in : FunctionalCache → ℕ → List (MemTransaction × ℕ) → Bool
  conflicts_in fc address [] = false
  conflicts_in fc address ((t, cycle) ∷ rest) =
      let later = conflicts_in fc address rest in
      if get_setid over fc address == get_setid over fc t.addr
        && get_tag over fc address == get_tag over fc t.addr
      then true
      else later

  unfoldable pub check_evict_conflict : Cache → ℕ → Bool
  unfolding conflicts_in
  check_evict_conflict c address = conflicts_in c.fc address c.pq

  -- `invalidate` of a cache with none before it.
  unfoldable pub invalidate : Cache → ℕ → Option (Cache × Bool)
  invalidate c address = do
    here ← FunctionalCache.present over c.fc address
    if here
        then (FunctionalCache.invalidate over c.fc address >>= λ (fc, dirty).
            some (record c { fc = fc }, dirty))
        else some (c, false)

-- What ends a cycle.
abbrev pub end_cycle : Cache → Cache
end_cycle c = record c {
  cycle = c.cycle + 1;
  free_load_ports = c.load_ports;
  free_store_ports = c.store_ports;
}

abbrev pub evict_request : ℕ → MemTransaction
evict_request addr = record {
  op = none;
  dyn_id = 2 ^ 32 - 1;
  addr = addr;
  is_load_req = false;
  from_icache = false;
  is_prefetch = false;
  hw_id = HwId.evict;
}

-- The first loop of `sendRequests` of two levels: the requests that stay, those counted as stalled by a
-- port, and the next cache.
unfoldable pub send_to_next : List MemTransaction → Cache → Option (List MemTransaction × ℕ × Cache)
unfolding will_accept_transaction recv_request
send_to_next [] next = some ([], 0, next)
send_to_next (t ∷ ts) next =
    let refused =
      send_to_next ts next >>= λ (kept, stalls, next'). some (t ∷ kept, stalls + 1, next') in
    let sent = recv_request next t >>= λ next'. send_to_next ts next' in
    if will_accept_transaction next t then sent else refused

-- A line that is written back: it goes to the next cache, or waits.
unfoldable pub write_back : Cache → Cache → ℕ → Option (Cache × Cache)
unfolding will_accept_transaction recv_request
write_back c next addr =
    if will_accept_transaction next (evict_request addr)
    then (recv_request next (evict_request addr) >>= λ next'. some (c, next'))
    else some (request_out c (evict_request addr), next)
