-- ===== src/IssueUnit/Tests.antt =====
-- Two ports, each with an ALU, and a divider on the first that is not pipelined
-- (sim/src/issue_unit.cpp).
use cisim.Prelude.{
  zero, suc, ◌≡◌, refl, sym, ap, arith, Bool, true, false, List, [], ◌∷◌, some, ◌>>=◌,
}
use mathlib.Core.Option.{some-injective}
use cisim.Prelude.Dict.{lookup}
use cisim.Prelude.Dict
use cisim.IssueUnit.{
  IssueUnit, Port, Demand, init, count_ports, count_units, clear, get_available_port, free_unit,
  sort_fus, occupy_fu, unit_at,
}
use cisim.PriorityQueue.{push}
use cisim.IssueUnit.Schedule.{
  Scheduler, schedule, schedule_port_model, schedule_uops, pick_ports, pick_port, ports_at,
  find_units, block_ports, take_units, count_taken, try_port_model,
}
use cisim.IssueUnit.Counts.{IsNumbered, IsCounted}
use cisim.IssueUnit.Held.{IsSound, Schedules}
use cisim.IssueUnit.Assign.{schedule-Schedules}

abbrev ports : List Port
ports =
    record { port_id = 0; units = (1, false) ∷ (3, false) ∷ []; release_cycle = 0 }
    ∷ record { port_id = 1; units = (1, false) ∷ []; release_cycle = 0 }
    ∷ []

abbrev unit : IssueUnit
unit = init false (3 ∷ []) ((1 ∷ 3 ∷ []) ∷ (1 ∷ []) ∷ [])

abbrev idle : Scheduler
idle = record { unit = unit; ports = ports; using = λ p. []; occupied = [] }

-- A division on the first port, which stays blocked for 4 cycles.
abbrev division : Demand
division = record { port_mapping = (4, 0 ∷ []) ∷ []; fus = (3 ∷ []) ∷ [] }

ports-IsNumbered : IsNumbered ports
ports-IsNumbered zero port e = ap (λ (p : Port). p.port_id) (sym (some-injective _ _ e))
ports-IsNumbered (suc zero) port e = ap (λ (p : Port). p.port_id) (sym (some-injective _ _ e))
ports-IsNumbered (suc (suc i)) port e = absurd (cc (e))

unit-IsCounted : IsCounted unit ports
unfolding init count_ports count_units lookup Dict.insert
unit-IsCounted fu = ground arith

idle-IsSound : IsSound idle
idle-IsSound = record { counted = unit-IsCounted; numbered = ports-IsNumbered }

schedule-Schedules_example :
    (s' : Scheduler) × (done : Bool) × (schedule 7 division 2 idle ≡ some (s', done))
    × Schedules 7 (0 ∷ []) idle s' done
schedule-Schedules_example =
    schedule-Schedules 7 division 2 idle idle-IsSound ((omega arith, tt), tt)

-- A second division in the same cycle finds no port.
schedule_example :
    (schedule 7 division 2 idle >>= λ r. schedule 8 division 2 r.0 >>= λ r'. some (r.1 ∷ r'.1 ∷ []))
    ≡ some (true ∷ false ∷ [])
unfolding schedule schedule_port_model schedule_uops pick_ports pick_port ports_at find_units
    block_ports take_units count_taken try_port_model init count_ports count_units lookup
    Dict.insert get_available_port free_unit sort_fus occupy_fu unit_at push
schedule_example = refl

clear_example :
    clear (record { port_id = 0; units = (1, true) ∷ (3, true) ∷ []; release_cycle = 6 })
    ≡ record { port_id = 0; units = (1, false) ∷ (3, false) ∷ []; release_cycle = 6 }
clear_example = refl
