-- ===== src/IssueUnit/Schedule.antt =====
-- How an operation gets its ports and units (`scheduleUops`, `schedulePortModel` and
-- `scheduleNaiveModel` of sim/src/issue_unit.cpp).
use cisim.Prelude.{
  ℕ, suc, ◌+◌, ◌-◌, Bool, true, false, ltb, leb, ◌==◌, if◌then◌else◌, List, [], ◌∷◌, ◌++◌, length,
  get_elem?, set, Option, none, some, ◌>>=◌, ◌>>◌, assert,
}
use cisim.Prelude.Dict
use cisim.IssueUnit.{
  IssueUnit, Port, Demand, UnitPlace, allow_ports, value_at, is_in, is_pipelined, unit_at,
  occupy_fu, get_available_port, sort_fus,
}

-- What scheduling changes. `using` is the units that each operation holds, its fields `usingFuIDs` and
-- `usingPorts`.
pub record Scheduler : Type 0 where
  pub unit : IssueUnit
  pub ports : List Port
  pub using : ℕ → List UnitPlace
  pub occupied : List ℕ

-- The inner loop of `scheduleUops`: the first port that is neither taken nor blocked.
unfoldable pub pick_port : List Port → List ℕ → List ℕ → ℕ → List ℕ → Option (Option ℕ)
pick_port ports taken occupied cycle [] = some none
pick_port ports taken occupied cycle (id ∷ ids) = do
  port ← get_elem? ports id
  assert (port.port_id == id)
  let later = pick_port ports taken occupied cycle ids
  if is_in id taken
      then later
      else if is_in id occupied
      then later
      else if leb port.release_cycle cycle
      then some (some id)
      else later

-- The outer loop, with the ports taken so far.
unfoldable pub pick_ports : List Port → List ℕ → ℕ → List (ℕ × List ℕ) → List ℕ → Option (List ℕ)
unfolding pick_port
pick_ports ports occupied cycle [] taken = some taken
pick_ports ports occupied cycle ((stall, ids) ∷ mapping) taken = do
  picked ← pick_port ports taken occupied cycle ids
  pick_ports ports occupied cycle mapping
      (elim picked [ none ↦ taken | some id ↦ taken ++ id ∷ [] ])

-- `scheduleUops`: the ports of all micro-operations, or none. The ports are also added to the occupied
-- ones.
unfoldable pub schedule_uops : List Port → List ℕ → ℕ → Demand → Option (List ℕ × List ℕ)
unfolding pick_ports
schedule_uops ports occupied cycle d = do
  taken ← pick_ports ports occupied cycle d.port_mapping []
  some
      (if length taken == length d.port_mapping then (taken, occupied ++ taken) else ([], occupied))

-- The ports behind some places, with the places.
unfoldable pub ports_at : List Port → List ℕ → Option (List (ℕ × Port))
ports_at ports [] = some []
ports_at ports (i ∷ is) = do
  port ← get_elem? ports i
  rest ← ports_at ports is
  some ((i, port) ∷ rest)

-- All ports with their places, from a first place on.
abbrev pub numbered : ℕ → List Port → List (ℕ × Port)
numbered i [] = []
numbered i (port ∷ ports) = (i, port) ∷ numbered (suc i) ports

-- The units found so far and the ports that hold them.
pub record Found : Type 0 where
  pub aval : List UnitPlace
  pub taken : List ℕ

-- The loop over the kinds of one alternative, true if each found a unit.
unfoldable pub find_units :
    IssueUnit → List ℕ → List (ℕ × Port) → ℕ → List (ℕ × ℕ) → Found → Found × Bool
unfolding get_available_port
find_units u allowed candidates cycle [] found = (found, true)
find_units u allowed candidates cycle ((count, fu) ∷ fus) found =
    elim (get_available_port u fu allowed candidates found.taken cycle) [
      | none ↦ (found, false)
      | some (at, port) ↦ find_units u allowed candidates cycle fus (record {
        aval = if is_pipelined u fu then found.aval else found.aval ++ at ∷ [];
        taken = found.taken ++ port.port_id ∷ [];
      })
    ]

-- The units that an operation takes are counted as no longer free.
unfoldable pub count_taken : List Port → List UnitPlace → IssueUnit → Option IssueUnit
unfolding unit_at
count_taken ports [] u = some u
count_taken ports (at ∷ ats) u = do
  (port, fu, busy) ← unit_at ports at
  assert (ltb 0 (value_at fu u.fu_aval_map))
  count_taken ports ats (
      if is_pipelined u fu
      then u
      else record u { fu_aval_map = Dict.insert fu (value_at fu u.fu_aval_map - 1) u.fu_aval_map })

-- Both calls of `occupyFU`, for the operation and for the unit.
unfoldable pub take_units : Scheduler → ℕ → List UnitPlace → Option Scheduler
unfolding count_taken occupy_fu
take_units s op aval = do
  unit ← count_taken s.ports aval s.unit
  ports ← occupy_fu unit aval s.ports
  some (record s { unit = unit; ports = ports; using = λ p. if op == p then aval else s.using p })

-- The ports are blocked for the stall cycles of the mapping.
unfoldable pub block_ports : ℕ → List ℕ → List (ℕ × List ℕ) → List Port → Option (List Port)
block_ports cycle [] mapping ports = some ports
block_ports cycle (i ∷ is) [] ports = none
block_ports cycle (i ∷ is) ((stall, ids) ∷ mapping) ports = do
  port ← get_elem? ports i
  block_ports cycle is mapping (set ports i (record port { release_cycle = cycle + stall }))

-- The loop of `schedulePortModel` over the alternatives. What an alternative found before it failed
-- stays with the next one.
unfoldable pub try_port_model :
    ℕ
    → Demand
    → ℕ
    → List ℕ
    → List (ℕ × Port)
    → List (List ℕ)
    → Found
    → Scheduler
    → Option (Scheduler × Bool)
unfolding find_units sort_fus block_ports take_units
try_port_model op d cycle ids candidates [] found s = some (s, false)
try_port_model op d cycle ids candidates (fus ∷ rest) found s =
    let (found', complete) =
      find_units s.unit (allow_ports d.port_mapping) candidates cycle (sort_fus s.unit fus [])
        found in
    let later = try_port_model op d cycle ids candidates rest found' s in
    if complete
    then (block_ports cycle ids d.port_mapping s.ports >>= λ ports.
        take_units (record s { occupied = s.occupied ++ ids; ports = ports }) op found'.aval
        >>= λ s'. some (s', true))
    else later

unfoldable pub schedule_port_model : ℕ → Demand → ℕ → Scheduler → Option (Scheduler × Bool)
unfolding schedule_uops ports_at try_port_model
schedule_port_model op d cycle s = do
  (ids, occupied) ← schedule_uops s.ports s.occupied cycle d
  let s' = record s { occupied = occupied }
  if length ids == 0
      then some (s', false)
      else (ports_at s.ports ids >>= λ candidates.
          try_port_model op d cycle ids candidates d.fus (record { aval = []; taken = [] }) s')

-- The port numbers of the units that an operation takes.
unfoldable pub port_ids : List Port → List UnitPlace → Option (List ℕ)
port_ids ports [] = some []
port_ids ports ((i, k) ∷ ats) = do
  port ← get_elem? ports i
  rest ← port_ids ports ats
  some (port.port_id ∷ rest)

-- The loop of `scheduleNaiveModel`: each alternative starts anew, and a port is occupied only by a unit
-- that is not pipelined.
unfoldable pub try_naive_model :
    ℕ → Demand → ℕ → List (List ℕ) → Scheduler → Option (Scheduler × Bool)
unfolding find_units sort_fus port_ids take_units
try_naive_model op d cycle [] s = some (s, false)
try_naive_model op d cycle (fus ∷ rest) s =
    let (found, complete) =
      find_units s.unit (allow_ports d.port_mapping) (numbered 0 s.ports) cycle
        (sort_fus s.unit fus []) (record { aval = []; taken = s.occupied }) in
    let later = try_naive_model op d cycle rest s in
    if complete
    then (port_ids s.ports found.aval >>= λ ids.
        take_units (record s { occupied = s.occupied ++ ids }) op found.aval >>= λ s'.
        some (s', true))
    else later

-- `schedule`
unfoldable pub schedule : ℕ → Demand → ℕ → Scheduler → Option (Scheduler × Bool)
unfolding schedule_port_model try_naive_model
schedule op d cycle s =
    if s.unit.naive then try_naive_model op d cycle d.fus s else schedule_port_model op d cycle s
