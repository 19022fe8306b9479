-- ===== src/IssueUnit/Naive.antt =====
-- `scheduleNaiveModel` (sim/src/issue_unit.cpp).
use cisim.Prelude.{
  ℕ, suc, ◌+◌, ◌≡◌, inl, inr, refl, ap, ◌∙◌, arith, Bool, true, false, Bool-cases, List, [], ◌∷◌,
  ◌++◌, All, All-map, get_elem?, some,
}
use cisim.IssueUnit.{IssueUnit, Port, UnitPlace, Demand, allow_ports, is_in, sort_fus}
use cisim.IssueUnit.Schedule.{Scheduler, Found, find_units, numbered, port_ids, try_naive_model}
use cisim.IssueUnit.Counts.{IsUnit, IsNumbered}
use cisim.IssueUnit.Find.{IsPlaced, IsFound, find_units-IsFound, is_in-append}
use cisim.IssueUnit.Held.{IsSound, Schedules, take_units-Schedules}

-- All ports are candidates of the naive model.
numbered-IsPlaced :
    (whole rest : List Port) (i : ℕ)
    → ((j : ℕ) → get_elem? whole (j + i) ≡ get_elem? rest j)
    → IsPlaced whole (λ n. Unit) (numbered i rest)
numbered-IsPlaced whole [] i h = tt
numbered-IsPlaced whole (port ∷ rest) i h = (
  (ap (get_elem? whole) (omega arith) ∙ h 0, tt),
  numbered-IsPlaced whole rest (suc i) (λ j. ap (get_elem? whole) (omega arith) ∙ h (suc j)),
)

pub is_in-later : (n m : ℕ) (ms : List ℕ) → is_in n ms ≡ true → is_in n (m ∷ ms) ≡ true
is_in-later n m ms h = ground (arith, h)

port_ids-In :
    (u : IssueUnit) (ports : List Port) (ats : List UnitPlace)
    → IsNumbered ports
    → All (IsUnit u ports false) ats
    → (ids : List ℕ) × (port_ids ports ats ≡ some ids)
      × All (λ (at : UnitPlace). is_in at.0 ids ≡ true) ats
unfolding port_ids
port_ids-In u ports [] n h = ([], refl, tt)
port_ids-In u ports (at ∷ ats) n ((port, fu, reads, here, piped), h) =
    let (ids, rest, all) = port_ids-In u ports ats n h in
    (
      port.port_id ∷ ids,
      rw (reads, rest) refl,
      (
        ground (arith, n at.0 port reads),
        All-map _ _ ats (λ b k. is_in-later b.0 port.port_id ids k) all,
      ),
    )

pub is_in-right : (n : ℕ) (ms ns : List ℕ) → is_in n ns ≡ true → is_in n (ms ++ ns) ≡ true
is_in-right n ms ns h = ground (arith, is_in-append n ms ns, h)

pub All-both {ℓ κ ι} :
    {A : Type ℓ} (P : A → Type κ) (Q : A → Type ι) (xs : List A)
    → All P xs
    → All Q xs
    → All (λ x. P x × Q x) xs
All-both P Q [] h k = tt
All-both P Q (x ∷ xs) (p, h) (q, k) = ((p, q), All-both P Q xs h k)

-- Nothing found yet.
pub start-IsFound :
    (u : IssueUnit) (ports : List Port) (allowed : List ℕ) (Good : ℕ → Type 0) (cycle : ℕ)
    (base : List ℕ)
    → IsFound u ports allowed Good cycle base (record { aval = []; taken = base })
start-IsFound u ports allowed Good cycle base = record {
  units = tt;
  apart = tt;
  chosen = tt;
  noted = tt;
  grown = λ n h. h;
}

module _ (op : ℕ) (d : Demand) (cycle : ℕ) where
  abbrev allowed : List ℕ
  allowed = allow_ports d.port_mapping

  pub unchanged :
      (s : Scheduler) (occupied : List ℕ)
      → IsSound s
      → Schedules op allowed s (record s { occupied = occupied }) false
  unchanged s occupied v = record {
    sound = record { counted = v.counted; numbered = v.numbered };
    pipes = refl;
    assigns = λ no. absurd (cc (no));
    stays = λ h. (refl, refl, refl);
  }

  pub try_naive_model-Schedules :
      (alternatives : List (List ℕ)) (s : Scheduler)
      → IsSound s
      → (s' : Scheduler) × (done : Bool) × (try_naive_model op d cycle alternatives s
          ≡ some (s', done))
        × Schedules op allowed s s' done
  unfolding try_naive_model
  try_naive_model-Schedules [] s v = (s, false, refl, unchanged s s.occupied v)
  try_naive_model-Schedules (fus ∷ rest) s v =
      let start : Found = record { aval = []; taken = s.occupied } in
      let f =
        find_units-IsFound s.unit s.ports allowed (λ n. Unit) cycle s.occupied (numbered 0 s.ports)
          (sort_fus s.unit fus []) start v.numbered
          (numbered-IsPlaced s.ports s.ports 0 (λ j. ap (get_elem? s.ports) (omega arith)))
          (start-IsFound s.unit s.ports allowed (λ n. Unit) cycle s.occupied) in
      let result =
        find_units s.unit allowed (numbered 0 s.ports) cycle (sort_fus s.unit fus []) start in
      elim (Bool-cases result.1) [
        | inr out ↦ rw out (try_naive_model-Schedules rest s v)
        | inl all_found ↦
            let (ids, reads, listed) =
              port_ids-In s.unit s.ports result.0.aval v.numbered f.units in
            let places =
              All-map _ _ result.0.aval
                (λ at ((good, may, fresh), now). (may, fresh, is_in-right at.0 s.occupied ids now))
                (All-both _ _ result.0.aval f.chosen listed) in
            let (s', takes, sch) =
              take_units-Schedules op allowed s (s.occupied ++ ids) s.ports result.0.aval v.counted
                v.numbered f.apart f.units f.units places in
            (s', true, rw (all_found, reads, takes) refl, sch)
      ]
