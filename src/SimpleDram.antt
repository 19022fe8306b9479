-- ===== src/SimpleDram.antt =====
-- The simple DRAM (`SimpleDRAM` of sim/include/mem/SimpleDRAM.hpp and sim/src/mem/SimpleDRAM.cpp): a
-- fixed latency and a bound on the requests of an epoch.
pub mod Serve
mod Tests
use cisim.Prelude.{
  ℕ, ◌+◌, ◌-◌, ◌*◌, ◌/◌, ◌%◌, ◌^◌, max, Bool, true, false, not, ◌&&◌, ◌||◌, ltb, leb, ◌==◌,
  if◌then◌else◌, List, [], ◌∷◌, Option, some, ◌>>=◌, ◌>>◌, assert,
}
use cisim.PriorityQueue.{push}

pub record MemOperator : Type 0 where
  pub addr : ℕ
  pub final_cycle : ℕ
  pub trans_id : ℕ
  pub is_write : Bool

-- `MemOpCompare`
abbrev pub before : MemOperator → MemOperator → Bool
before l r =
    ltb l.final_cycle r.final_cycle || (l.final_cycle == r.final_cycle && ltb l.trans_id r.trans_id)

-- The fields that nothing reads are left out.
pub record SimpleDram : Type 0 where
  pub latency : ℕ
  pub core_clockspeed : ℕ
  pub peak_bw : ℕ
  pub pq : List MemOperator
  pub trans_id : ℕ
  pub epoch_length : ℕ
  pub bytes_per_req : ℕ
  pub max_req_per_epoch : ℕ
  pub request_count : ℕ
  pub cycles : ℕ

-- The constructor. `junk` is what memory holds where `max_req_per_epoch` is not yet written.
unfoldable pub init : ℕ → ℕ → ℕ → SimpleDram
init junk latency bandwidth = record {
  latency = latency;
  core_clockspeed = 2000;
  peak_bw = bandwidth;
  pq = [];
  trans_id = 0;
  epoch_length = 16;
  bytes_per_req = 64;
  max_req_per_epoch = junk;
  request_count = 0;
  cycles = 0;
}

-- Both products are computed in `int`: an overflow is undefined, like a division by 0.
unfoldable pub initialize : SimpleDram → ℕ → ℕ → Option SimpleDram
initialize d clockspeed bytes_per_req = do
  let num = 1000 * d.peak_bw * d.epoch_length
  let denom = bytes_per_req * clockspeed
  assert (ltb num (2 ^ 31) && (ltb denom (2 ^ 31) && not (denom == 0)))
  some (record d {
    core_clockspeed = clockspeed;
    bytes_per_req = bytes_per_req;
    max_req_per_epoch = if ltb (num / denom) 1 then 1 else num / denom;
  })

abbrev pub will_accept_transaction : SimpleDram → ℕ → Bool
will_accept_transaction d addr = true

abbrev pub new_operator : SimpleDram → Bool → ℕ → MemOperator
new_operator d is_write addr = record {
  addr = addr;
  final_cycle = (d.cycles + d.latency + 2 ^ 64 - 1) % 2 ^ 64;
  trans_id = d.trans_id;
  is_write = is_write;
}

unfoldable pub add_transaction : SimpleDram → Bool → ℕ → SimpleDram
add_transaction d is_write addr = record d {
  pq = push before (new_operator d is_write addr) d.pq;
  trans_id = d.trans_id + 1;
}

abbrev pub has_more : List MemOperator → Bool
has_more [] = false
has_more (m ∷ ms) = true

-- What `process` calls of the memory interface, a callback on the state `S` of that.
module _ {S : Type 0} (complete : MemOperator → S → Option S) where
  -- The loop of `process`, with the count of requests so far. The queue shrinks in each round.
  unfoldable pub serve : ℕ → ℕ → List MemOperator → ℕ → S → Option (List MemOperator × ℕ × S)
  serve cycles limit [] count s = some ([], count, s)
  serve cycles limit (m ∷ ms) count s =
      let served = complete m s >>= λ s'. serve cycles limit ms (count + 1) s' in
      if ltb cycles m.final_cycle || leb limit count then some (m ∷ ms, count, s) else served

  -- `process` also returns whether requests are left.
  unfoldable pub process : SimpleDram → S → Option (SimpleDram × S × Bool)
  unfolding serve
  process d s = do
    (pq, count, s') ← serve d.cycles d.max_req_per_epoch d.pq d.request_count s
    let cycles = d.cycles + 1
    assert (not (d.epoch_length == 0))
    let reset = if cycles % d.epoch_length == 0 then 0 else count
    some (record d { pq = pq; request_count = reset; cycles = cycles }, s', has_more pq)
