-- ===== src/IssueUnit.antt =====
-- The issue unit (`IssueUnit` of sim/include/issue_unit.h and sim/src/issue_unit.cpp): which of the
-- waiting operations get a port and functional units in a cycle. A pointer to a port is its place in the
-- list of the ports.
pub mod Schedule
pub mod Issue
pub mod Counts
pub mod Find
pub mod Uops
pub mod Held
pub mod Naive
pub mod Assign
mod Tests
use cisim.Prelude.{
  ℕ, zero, suc, ◌+◌, ◌-◌, Bool, true, false, not, ◌&&◌, ◌||◌, ltb, leb, ◌==◌, if◌then◌else◌, List,
  [], ◌∷◌, ◌++◌, map, length, get_elem?, set, Option, none, some, ◌>>=◌, ◌>>◌, assert,
}
use cisim.Prelude.Dict.{lookup}
use cisim.Prelude.Dict
use cisim.PriorityQueue.{push}

-- A port (sim/include/port.h): `units` are `fus` with `fuUsage`, which have one length.
pub record Port : Type 0 where
  pub port_id : ℕ
  pub units : List (ℕ × Bool)
  pub release_cycle : ℕ

abbrev pub all_free : List (ℕ × Bool) → List (ℕ × Bool)
all_free [] = []
all_free ((fu, busy) ∷ units) = (fu, false) ∷ all_free units

-- `clear`
abbrev pub clear : Port → Port
clear port = record port { units = all_free port.units }

-- The fields of an operation that scheduling reads. The stall cycles of the ports and the allowed ports
-- are those of the mapping.
pub record Demand : Type 0 where
  pub port_mapping : List (ℕ × List ℕ)
  pub fus : List (List ℕ)

abbrev pub allow_ports : List (ℕ × List ℕ) → List ℕ
allow_ports [] = []
allow_ports ((stall, ports) ∷ rest) = ports ++ allow_ports rest

-- `fuPipeMap` has 1 for units that are pipelined. A missing key of either map reads as 0.
pub record IssueUnit : Type 0 where
  pub fu_stall : ℕ
  pub fu_aval_map : List (ℕ × ℕ)
  pub fu_aval_map_recover : List (ℕ × ℕ)
  pub naive : Bool
  pub fu_pipe_map : List (ℕ × ℕ)

abbrev pub value_at : ℕ → List (ℕ × ℕ) → ℕ
value_at key m = elim (lookup key m) [ none ↦ 0 | some n ↦ n ]

abbrev pub is_in : ℕ → List ℕ → Bool
is_in n [] = false
is_in n (m ∷ ms) = let later = is_in n ms in if m == n then true else later

-- The constructor: `configs` gives the units of each port in the order of the map.
unfoldable pub count_units : List ℕ → List ℕ → IssueUnit → IssueUnit
count_units not_pipelined [] u = u
count_units not_pipelined (fu ∷ fus) u = count_units not_pipelined fus (record u {
  fu_aval_map = Dict.insert fu (value_at fu u.fu_aval_map + 1) u.fu_aval_map;
  fu_pipe_map = Dict.insert fu (if is_in fu not_pipelined then 0 else 1) u.fu_pipe_map;
})

unfoldable pub count_ports : List ℕ → List (List ℕ) → IssueUnit → IssueUnit
unfolding count_units
count_ports not_pipelined [] u = record u { fu_aval_map_recover = u.fu_aval_map }
count_ports not_pipelined (fus ∷ configs) u =
    count_ports not_pipelined configs (count_units not_pipelined fus u)

unfoldable pub init : Bool → List ℕ → List (List ℕ) → IssueUnit
unfolding count_ports
init naive not_pipelined configs = count_ports not_pipelined configs (record {
  fu_stall = 0;
  fu_aval_map = [];
  fu_aval_map_recover = [];
  naive = naive;
  fu_pipe_map = [];
})

abbrev pub is_pipelined : IssueUnit → ℕ → Bool
is_pipelined u fu = not (value_at fu u.fu_pipe_map == 0)

-- A unit of a port, by the places of both.
abbrev pub UnitPlace : Type 0
UnitPlace = ℕ × ℕ

unfoldable pub unit_at : List Port → UnitPlace → Option (Port × ℕ × Bool)
unit_at ports (i, k) = do
  port ← get_elem? ports i
  (fu, busy) ← get_elem? port.units k
  some (port, fu, busy)

abbrev pub mark : List Port → UnitPlace → Port → ℕ → Bool → List Port
mark ports (i, k) port fu busy = set ports i (record port { units = set port.units k (fu, busy) })

-- `occupyFU`: units that are not pipelined become busy.
unfoldable pub occupy_fu : IssueUnit → List UnitPlace → List Port → Option (List Port)
unfolding unit_at
occupy_fu u [] ports = some ports
occupy_fu u (at ∷ ats) ports = do
  (port, fu, busy) ← unit_at ports at
  occupy_fu u ats (if is_pipelined u fu then ports else mark ports at port fu true)

-- `freeFU`: they become free, and are counted.
unfoldable pub free_fu : IssueUnit → List UnitPlace → List Port → Option (IssueUnit × List Port)
unfolding unit_at
free_fu u [] ports = some (u, ports)
free_fu u (at ∷ ats) ports = do
  (port, fu, busy) ← unit_at ports at
  if is_pipelined u fu
      then free_fu u ats ports
      else free_fu
          (record u { fu_aval_map = Dict.insert fu (value_at fu u.fu_aval_map + 1) u.fu_aval_map })
          ats (mark ports at port fu false)

-- The inner loop of `getAvailablePort`: the first free unit of the kind.
unfoldable pub free_unit : ℕ → List (ℕ × Bool) → ℕ → Option ℕ
free_unit fu [] i = none
free_unit fu ((kind, busy) ∷ rest) i =
    let later = free_unit fu rest (suc i) in if fu == kind && not busy then some i else later

abbrev pub may_use : IssueUnit → List ℕ → List ℕ → ℕ → Port → Bool
may_use u allowed occupied cycle port =
    is_in port.port_id allowed
    && (not (is_in port.port_id occupied) && (u.naive || leb port.release_cycle cycle))

-- `getAvailablePort`, over ports with their places: the first that may be used and has a free unit.
unfoldable pub get_available_port :
    IssueUnit → ℕ → List ℕ → List (ℕ × Port) → List ℕ → ℕ → Option (UnitPlace × Port)
unfolding free_unit
get_available_port u fu allowed [] occupied cycle = none
get_available_port u fu allowed ((i, port) ∷ rest) occupied cycle =
    let later = get_available_port u fu allowed rest occupied cycle in
    if may_use u allowed occupied cycle port
    then elim (free_unit fu port.units 0) [ none ↦ later | some k ↦ some ((i, k), port) ]
    else later

-- `sortFUs`: fewer units that are free come first. `std::sort` leaves the order of equal counts open;
-- here it is kept, as the library does for up to 16 elements.
unfoldable pub sort_fus : IssueUnit → List ℕ → List (ℕ × ℕ) → List (ℕ × ℕ)
sort_fus u [] sorted = sorted
sort_fus u (fu ∷ fus) sorted =
    sort_fus u fus (push (λ l r. ltb l.0 r.0) (value_at fu u.fu_aval_map, fu) sorted)
