-- ===== src/IssueUnit/Held.antt =====
-- What scheduling promises, and the units that an operation takes at its end (`schedulePortModel` and
-- `scheduleNaiveModel` of sim/src/issue_unit.cpp).
use cisim.Prelude.{
  ℕ, ◌≡◌, ◌≢◌, refl, arith, Bool, true, false, ◌==◌, ==_refl, if◌then◌else◌, List, All, some,
}
use cisim.IssueUnit.{IssueUnit, Port, UnitPlace, is_in}
use cisim.IssueUnit.Schedule.{Scheduler, take_units}
use cisim.IssueUnit.Counts.{IsUnit, IsApart, IsNumbered, IsCounted, Takes, take-Takes}

-- The counts agree with the units, and ports have the numbers of their places.
pub record IsSound (s : Scheduler) : Type 0 where
  pub counted : IsCounted s.unit s.ports
  pub numbered : IsNumbered s.ports

-- The operation holds units that were free and are busy, each on a port of its own that it may use and
-- that no other operation has in this cycle. Nothing else changes hands.
pub record Assigns (op : ℕ) (allowed : List ℕ) (s s' : Scheduler) : Type 0 where
  pub before : All (IsUnit s.unit s.ports false) (s'.using op)
  pub after : All (IsUnit s.unit s'.ports true) (s'.using op)
  pub apart : IsApart (s'.using op)
  pub places :
      All
        (λ (at : UnitPlace).
          (is_in at.0 allowed ≡ true)
          × (is_in at.0 s.occupied ≡ false)
          × (is_in at.0 s'.occupied ≡ true))
        (s'.using op)
  pub others : (p : ℕ) → p ≢ op → s'.using p ≡ s.using p

-- Both results keep the scheduler sound. Without units, ports and counts are as they were.
pub record Schedules (op : ℕ) (allowed : List ℕ) (s s' : Scheduler) (done : Bool) : Type 0 where
  pub sound : IsSound s'
  pub pipes : s'.unit.fu_pipe_map ≡ s.unit.fu_pipe_map
  pub assigns : done ≡ true → Assigns op allowed s s'
  pub stays : done ≡ false → (s'.unit ≡ s.unit) × (s'.ports ≡ s.ports) × (s'.using ≡ s.using)

-- `take_units` with units that are free.
take_units-Takes :
    (s : Scheduler) (op : ℕ) (aval : List UnitPlace)
    → IsSound s
    → IsApart aval
    → All (IsUnit s.unit s.ports false) aval
    → (unit : IssueUnit) × (ports : List Port) × (take_units s op aval
        ≡ some (record s {
          unit = unit;
          ports = ports;
          using = λ p. if op == p then aval else s.using p;
        }))
      × Takes s.unit s.ports aval unit ports
unfolding take_units
take_units-Takes s op aval v apart free =
    let (unit, ports, counts, occupies, t) =
      take-Takes aval s.unit s.ports v.counted v.numbered apart free in
    (unit, ports, rw (counts, occupies unit t.pipes) refl, t)

module _ (op : ℕ) (allowed : List ℕ) (s : Scheduler) where
  -- The end of both models, after ports may have been blocked.
  pub take_units-Schedules :
      (occupied : List ℕ) (ports : List Port) (aval : List UnitPlace)
      → IsCounted s.unit ports
      → IsNumbered ports
      → IsApart aval
      → All (IsUnit s.unit s.ports false) aval
      → All (IsUnit s.unit ports false) aval
      → All
          (λ (at : UnitPlace).
            (is_in at.0 allowed ≡ true)
            × (is_in at.0 s.occupied ≡ false)
            × (is_in at.0 occupied ≡ true))
          aval
      → (s' : Scheduler) × (take_units (record s { occupied = occupied; ports = ports }) op aval
          ≡ some s')
        × Schedules op allowed s s' true
  take_units-Schedules occupied ports aval h n apart free free' places =
      let s1 = record s { occupied = occupied; ports = ports } in
      let (unit, ports', takes, t) =
        take_units-Takes s1 op aval (record { counted = h; numbered = n }) apart free' in
      let s' = record s1 {
        unit = unit;
        ports = ports';
        using = λ p. if op == p then aval else s.using p;
      } in
      (
        s',
        takes,
        record {
          sound = record { counted = t.counted; numbered = t.numbered };
          pipes = t.pipes;
          assigns = λ yes. record {
            before = rw (==_refl op) free;
            after = rw (==_refl op) t.busy;
            apart = rw (==_refl op) apart;
            places = rw (==_refl op) places;
            others = λ p other. ground (arith, other);
          };
          stays = λ no. absurd (cc (no));
        },
      )
