-- ===== src/DramInterface.antt =====
-- The memory interface (`DRAMSimInterface` of sim/include/mem/DRAM.hpp and sim/src/mem/DRAM.cpp)
-- between the last cache and the DRAM.
pub mod Served
pub mod Process
mod Tests
use cisim.Prelude.{
  ℕ, ◌+◌, ◌-◌, Bool, true, false, not, ◌&&◌, ◌||◌, ltb, if◌then◌else◌, List, [], ◌∷◌, ◌++◌, map,
  Option, none, some, ◌>>=◌, ◌>>◌, assert,
}
use cisim.Prelude.Dict.{lookup, erase}
use cisim.Prelude.Dict
use cisim.MemTransaction.{MemTransaction}
use cisim.PortCount.{has_port, count_down}
use cisim.SimpleDram.{SimpleDram, MemOperator}
use cisim.SimpleDram

-- Port counts are those of `PortCount`. In the queues of the writes the transaction is always null.
pub record DramInterface : Type 0 where
  pub cycles : ℕ
  pub read_ports : Option ℕ
  pub write_ports : Option ℕ
  pub free_read_ports : Option ℕ
  pub free_write_ports : Option ℕ
  pub simple_dram : SimpleDram
  pub use_simple_dram : Bool
  pub outstanding_read_map : List (ℕ × List (MemTransaction × ℕ))
  pub outstanding_write_map : List (ℕ × List ℕ)
  pub cacheline_size : ℕ

-- The constructor. `junk` is what memory holds where `cacheline_size` is not yet written.
unfoldable pub init : ℕ → Bool → SimpleDram → Option ℕ → Option ℕ → DramInterface
init junk use_simple_dram simple_dram read_ports write_ports = record {
  cycles = 0;
  read_ports = read_ports;
  write_ports = write_ports;
  free_read_ports = read_ports;
  free_write_ports = write_ports;
  simple_dram = simple_dram;
  use_simple_dram = use_simple_dram;
  outstanding_read_map = [];
  outstanding_write_map = [];
  cacheline_size = junk;
}

abbrev pub or_empty {ℓ} : {A : Type ℓ} → Option (List A) → List A
or_empty none = []
or_empty (some q) = q

abbrev pub queue_at {ℓ} : {A : Type ℓ} → ℕ → List (ℕ × List A) → List A
queue_at addr m = or_empty (lookup addr m)

-- The interface and the transactions that it has given to `recvResponse` of its cache, in order.
abbrev pub State : Type 0
State = DramInterface × List MemTransaction

-- All reads of the address get their response.
abbrev pub answer_reads : ℕ → State → Option (List (MemTransaction × ℕ)) → State
answer_reads addr s none = s
answer_reads addr (d, sent) (some q) = (
  record d { outstanding_read_map = erase addr d.outstanding_read_map },
  sent ++ map (λ entry. entry.0) q,
)

unfoldable pub read_complete : ℕ → State → State
read_complete addr s = answer_reads addr s (lookup addr s.0.outstanding_read_map)

-- `none` for the exception of `at` and for `front` of an empty queue.
abbrev pub pop_write : ℕ → DramInterface → List ℕ → Option DramInterface
pop_write addr d [] = none
pop_write addr d (first ∷ []) =
    some (record d { outstanding_write_map = erase addr d.outstanding_write_map })
pop_write addr d (first ∷ next ∷ q) =
    some (record d { outstanding_write_map = Dict.insert addr (next ∷ q) d.outstanding_write_map })

unfoldable pub write_complete : ℕ → State → Option State
write_complete addr (d, sent) = do
  q ← lookup addr d.outstanding_write_map
  d' ← pop_write addr d q
  some (d', sent)

abbrev pub add_read : MemTransaction → ℕ → ℕ → DramInterface → DramInterface
add_read t addr issue_cycle d = record d {
  free_read_ports = count_down d.free_read_ports;
  simple_dram = SimpleDram.add_transaction d.simple_dram false addr;
  outstanding_read_map =
      Dict.insert addr (queue_at addr d.outstanding_read_map ++ (t, issue_cycle) ∷ [])
        d.outstanding_read_map;
}

abbrev pub add_write : ℕ → ℕ → DramInterface → DramInterface
add_write addr issue_cycle d = record d {
  free_write_ports = count_down d.free_write_ports;
  simple_dram = SimpleDram.add_transaction d.simple_dram true addr;
  outstanding_write_map =
      Dict.insert addr (queue_at addr d.outstanding_write_map ++ issue_cycle ∷ [])
        d.outstanding_write_map;
}

-- A null transaction is an eviction. The constructor makes no `mem`, the code that did is switched off:
-- a call of it is a fault.
unfoldable pub add_transaction :
    Option MemTransaction → ℕ → ℕ → DramInterface → Option DramInterface
add_transaction (some t) addr issue_cycle d =
    assert d.use_simple_dram >> some (add_read t addr issue_cycle d)
add_transaction none addr issue_cycle d =
    assert d.use_simple_dram >> some (add_write addr issue_cycle d)

unfoldable pub will_accept_transaction : DramInterface → ℕ → Bool → Option Bool
will_accept_transaction d addr is_read =
    if (not (has_port d.read_ports d.free_read_ports) && is_read)
      || (not (has_port d.write_ports d.free_write_ports) && not is_read)
    then some false
    else (assert d.use_simple_dram >> some (SimpleDram.will_accept_transaction d.simple_dram addr))

-- The callback of the DRAM.
unfoldable pub complete : MemOperator → State → Option State
complete m s = if m.is_write then write_complete m.addr s else some (read_complete m.addr s)

abbrev pub reset_ports : DramInterface → DramInterface
reset_ports d = record d { free_read_ports = d.read_ports; free_write_ports = d.write_ports }

unfoldable pub process : DramInterface → Option State
process d = do
  assert d.use_simple_dram
  (dram, s, more) ← SimpleDram.process complete d.simple_dram (reset_ports d, [])
  some (record s.0 { simple_dram = dram; cycles = d.cycles + 1 }, s.1)

unfoldable pub initialize : DramInterface → ℕ → ℕ → Option DramInterface
initialize d clockspeed cacheline_size = do
  dram ← SimpleDram.initialize d.simple_dram clockspeed cacheline_size
  some (record d { simple_dram = dram; cacheline_size = cacheline_size })

unfoldable pub fast_forward : DramInterface → ℕ → Option DramInterface
fast_forward d inc =
    assert d.use_simple_dram
    >> some
        (record d { simple_dram = record d.simple_dram { cycles = d.simple_dram.cycles + inc } })
