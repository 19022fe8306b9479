-- ===== src/IssueUnit/Assign.antt =====
-- What `IssueUnit::schedule` (sim/src/issue_unit.cpp) gives to an operation.
use cisim.Prelude.{
  ℕ, ◌<◌, ◌≡◌, inl, inr, refl, ap, ◌∙◌, arith, Bool, true, false, Bool-cases, ◌==◌, if◌then◌else◌,
  List, [], ◌∷◌, ◌++◌, All, All-map, length, some, Option,
}
use cisim.IssueUnit.{Port, Demand, allow_ports, is_in, sort_fus}
use cisim.IssueUnit.Schedule.{
  Scheduler, Found, find_units, try_port_model, schedule_port_model, try_naive_model, schedule,
}
use cisim.IssueUnit.Uops.{IsMapped, schedule_uops-Picks, ports_at-IsPlaced, block_ports-Blocks}
use cisim.IssueUnit.Find.{IsPlaced, IsFound, find_units-IsFound}
use cisim.IssueUnit.Held.{IsSound, Schedules, take_units-Schedules}
use cisim.IssueUnit.Naive.{
  is_in-later, is_in-right, All-both, start-IsFound, unchanged, try_naive_model-Schedules,
}

members : (ids : List ℕ) → All (λ i. is_in i ids ≡ true) ids
members [] = tt
members (i ∷ is) = (ground arith, All-map _ _ is (λ j h. is_in-later j i is h) (members is))

module _ (op : ℕ) (d : Demand) (cycle : ℕ) (s : Scheduler) (v : IsSound s)
    (occupied ids : List ℕ) where
  -- The ports that the micro-operations have.
  abbrev IsOwn : ℕ → Type 0
  IsOwn i = (is_in i s.occupied ≡ false) × (is_in i ids ≡ true)

  abbrev at_start : Scheduler
  at_start = record s { occupied = occupied }

  try_port_model-Schedules :
      (candidates : List (ℕ × Port)) (alternatives : List (List ℕ)) (found : Found)
      → IsPlaced s.ports IsOwn candidates
      → All (λ id. id < length s.ports) ids
      → length ids ≡ length d.port_mapping
      → IsFound s.unit s.ports (allow_ports d.port_mapping) IsOwn cycle [] found
      → (s' : Scheduler) × (done : Bool) × (try_port_model op d cycle ids candidates alternatives
            found at_start
          ≡ some (s', done))
        × Schedules op (allow_ports d.port_mapping) s s' done
  unfolding try_port_model
  try_port_model-Schedules candidates [] found placed inside len f =
      (at_start, false, refl, unchanged op d cycle s occupied v)
  try_port_model-Schedules candidates (fus ∷ rest) found placed inside len f =
      let allowed = allow_ports d.port_mapping in
      let sorted = sort_fus s.unit fus [] in
      let result = find_units s.unit allowed candidates cycle sorted found in
      let f' =
        find_units-IsFound s.unit s.ports allowed IsOwn cycle [] candidates sorted found v.numbered
          placed f in
      elim (Bool-cases result.1) [
        | inr out ↦ rw out (try_port_model-Schedules candidates rest result.0 placed inside len f')
        | inl all_found ↦
            let (ports, blocks, b) =
              block_ports-Blocks s.unit cycle (length s.ports) ids d.port_mapping s.ports refl
                v.numbered inside len in
            let places =
              All-map _ _ result.0.aval
                (λ at ((fresh, own), may, outside). (may, fresh, is_in-right at.0 occupied ids own))
                f'.chosen in
            let (s', takes, sch) =
              take_units-Schedules op allowed s (occupied ++ ids) ports result.0.aval
                (b.counted v.counted) (b.numbered v.numbered) f'.apart f'.units
                (All-map _ _ result.0.aval (b.units false) f'.units) places in
            (s', true, rw (all_found, blocks, takes) refl, sch)
      ]

schedule_port_model-Schedules :
    (op : ℕ) (d : Demand) (cycle : ℕ) (s : Scheduler)
    → IsSound s
    → IsMapped s.ports d.port_mapping
    → (s' : Scheduler) × (done : Bool) × (schedule_port_model op d cycle s ≡ some (s', done))
      × Schedules op (allow_ports d.port_mapping) s s' done
unfolding schedule_port_model
schedule_port_model-Schedules op d cycle s v mapped =
    let (ids, occupied, picks, free, many) =
      schedule_uops-Picks s.ports s.occupied cycle v.numbered d mapped in
    elim (Bool-cases (length ids == 0)) [
      | inl no_ids ↦ (
        record s { occupied = occupied },
        false,
        rw (picks, no_ids) refl,
        unchanged op d cycle s occupied v,
      )
      | inr some_ids ↦
          let len : length ids ≡ length d.port_mapping = elim many [
            | inl no_ids ↦ absurd (ground (arith, some_ids, no_ids))
            | inr len ↦ len
          ] in
          let start : Found = record { aval = []; taken = [] } in
          let Own = IsOwn op d cycle s v occupied ids in
          let (candidates, ports, placed) = ports_at-IsPlaced s.ports Own ids (
            All-map _ _ ids (λ i ((inside, fresh), own). (inside, (fresh, own)))
              (All-both _ _ ids free (members ids))) in
          let (s', done, tries, sch) =
            try_port_model-Schedules op d cycle s v occupied ids candidates d.fus start placed
              (All-map _ _ ids (λ i k. k.0) free) len
              (start-IsFound s.unit s.ports (allow_ports d.port_mapping) Own cycle []) in
          (s', done, rw (picks, some_ids, ports) tries, sch)
    ]

-- Where the counts agree with the units, ports have the numbers of their places, and the ports of the
-- mapping exist, `schedule` fails no assertion, in either model, and the counts agree again. If it
-- succeeds, the operation holds units that are not pipelined, were free and are now busy, each on a port
-- of its own that is among the allowed ones and was not occupied in this cycle but is now; the others
-- hold what they held. If it does not, units, counts and ports are as they were.
pub schedule-Schedules :
    (op : ℕ) (d : Demand) (cycle : ℕ) (s : Scheduler)
    → IsSound s
    → IsMapped s.ports d.port_mapping
    → (s' : Scheduler) × (done : Bool) × (schedule op d cycle s ≡ some (s', done))
      × Schedules op (allow_ports d.port_mapping) s s' done
unfolding schedule
schedule-Schedules op d cycle s v mapped =
    let choose : Bool → Option (Scheduler × Bool) = λ naive.
      if naive then try_naive_model op d cycle d.fus s else schedule_port_model op d cycle s in
    elim (Bool-cases s.unit.naive) [
      | inl naive ↦
          let (s', done, runs, sch) = try_naive_model-Schedules op d cycle d.fus s v in
          (s', done, ap choose naive ∙ runs, sch)
      | inr blocking ↦
          let (s', done, runs, sch) = schedule_port_model-Schedules op d cycle s v mapped in
          (s', done, ap choose blocking ∙ runs, sch)
    ]
