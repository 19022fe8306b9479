-- ===== src/IssueUnit/Uops.antt =====
-- The ports of the micro-operations (`scheduleUops` of sim/src/issue_unit.cpp) and the blocking of ports.
use cisim.Prelude.{
  ℕ, ◌+◌, ◌<◌, ◌≡◌, ◌⊎◌, inl, inr, refl, sym, ap, ◌∙◌, arith, Bool, true, false, Bool-cases, leb,
  ◌==◌, ==_iff, List, [], ◌∷◌, ◌++◌, All, All-snoc, length, get_elem?, get_elem?-in, get_elem?-lt,
  set, get_elem?-set_self, length-set, some, none,
}
use mathlib.Core.Option.{some-injective}
use cisim.PriorityQueue.{tally-set}
use cisim.IssueUnit.{IssueUnit, Port, UnitPlace, Demand, is_in}
use cisim.IssueUnit.Schedule.{pick_port, pick_ports, schedule_uops, ports_at, block_ports}
use cisim.IssueUnit.Counts.{IsUnit, IsNumbered, IsCounted, IsNumbered-set, IsUnit-set, free_here}
use cisim.IssueUnit.Find.{IsPlaced}

-- The ports of a mapping exist.
abbrev pub IsMapped : List Port → List (ℕ × List ℕ) → Type 0
IsMapped ports mapping = All (λ (m : ℕ × List ℕ). All (λ id. id < length ports) m.1) mapping

module _ (ports : List Port) (occupied : List ℕ) (cycle : ℕ) (n : IsNumbered ports) where
  -- A port that exists and is not occupied.
  abbrev IsOpen : ℕ → Type 0
  IsOpen id = (id < length ports) × (is_in id occupied ≡ false)

  pick_port-Picks :
      (taken ids : List ℕ)
      → All (λ id. id < length ports) ids
      → (pick_port ports taken occupied cycle ids ≡ some none)
        ⊎ ((id : ℕ) × (pick_port ports taken occupied cycle ids ≡ some (some id)) × IsOpen id)
  unfolding pick_port
  pick_port-Picks taken [] h = inl refl
  pick_port-Picks taken (id ∷ ids) (inside, h) =
      let (port, read) = get_elem?-in ports id inside in
      let own : (port.port_id == id) ≡ true = ground (arith, n id port read) in
      let later = pick_port-Picks taken ids h in
      elim (Bool-cases (is_in id taken)) [
        | inl in_use ↦ rw (read, own, in_use) later
        | inr unused ↦ elim (Bool-cases (is_in id occupied)) [
          | inl other ↦ rw (read, own, unused, other) later
          | inr free ↦ elim (Bool-cases (leb port.release_cycle cycle)) [
            | inl released ↦ inr (id, rw (read, own, unused, free, released) refl, (inside, free))
            | inr blocked ↦ rw (read, own, unused, free, blocked) later
          ]
        ]
      ]

  pick_ports-Picks :
      (mapping : List (ℕ × List ℕ)) (taken : List ℕ)
      → IsMapped ports mapping
      → All IsOpen taken
      → (taken' : List ℕ) × (pick_ports ports occupied cycle mapping taken ≡ some taken')
        × All IsOpen taken'
  unfolding pick_ports
  pick_ports-Picks [] taken h k = (taken, refl, k)
  pick_ports-Picks ((stall, ids) ∷ mapping) taken (inside, h) k =
      elim (pick_port-Picks taken ids inside) [
        | inl none_free ↦ rw none_free (pick_ports-Picks mapping taken h k)
        | inr (id, picked, free) ↦
            rw picked
              (pick_ports-Picks mapping (taken ++ id ∷ []) h (All-snoc IsOpen taken id k free))
      ]

  -- Each micro-operation has a port, or there is none at all.
  pub schedule_uops-Picks :
      (d : Demand)
      → IsMapped ports d.port_mapping
      → (ids occupied' : List ℕ) × (schedule_uops ports occupied cycle d ≡ some (ids, occupied'))
        × All (λ id. (id < length ports) × (is_in id occupied ≡ false)) ids
        × ((length ids ≡ 0) ⊎ (length ids ≡ length d.port_mapping))
  unfolding schedule_uops
  schedule_uops-Picks d h =
      let (taken, picks, free) = pick_ports-Picks d.port_mapping [] h tt in
      elim (Bool-cases (length taken == length d.port_mapping)) [
        | inl all ↦ (taken, occupied ++ taken, rw (picks, all) refl, free, inr ((==_iff _ _).0 all))
        | inr less ↦ ([], occupied, rw (picks, less) refl, tt, inl refl)
      ]

pub ports_at-IsPlaced :
    (ports : List Port) (Good : ℕ → Type 0) (ids : List ℕ)
    → All (λ id. (id < length ports) × Good id) ids
    → (candidates : List (ℕ × Port)) × (ports_at ports ids ≡ some candidates)
      × IsPlaced ports Good candidates
unfolding ports_at
ports_at-IsPlaced ports Good [] h = ([], refl, tt)
ports_at-IsPlaced ports Good (id ∷ ids) ((inside, good), h) =
    let (port, read) = get_elem?-in ports id inside in
    let (rest, reads, placed) = ports_at-IsPlaced ports Good ids h in
    ((id, port) ∷ rest, rw (read, reads) refl, ((read, good), placed))

-- A port that is only blocked keeps its units.
module _ (u : IssueUnit) (ports : List Port) (i : ℕ) (port : Port) (release : ℕ)
    (e : get_elem? ports i ≡ some port) where
  abbrev blocked : List Port
  blocked = set ports i (record port { release_cycle = release })

  blocked-IsCounted : IsCounted u ports → IsCounted u blocked
  blocked-IsCounted h fu = omega (
    arith,
    h fu,
    tally-set (free_here fu) ports i port (record port { release_cycle = release }) e,
  )

  blocked-IsUnit :
      (busy : Bool) (at : UnitPlace) → IsUnit u ports busy at → IsUnit u blocked busy at
  blocked-IsUnit busy at (q, fu, reads, here, piped) = elim (Bool-cases (i == at.0)) [
    | inr other ↦
        IsUnit-set u ports i (record port { release_cycle = release }) busy at
          (λ s. ground (arith, other, s)) (q, fu, reads, here, piped)
    | inl same ↦
        let place : i ≡ at.0 = (==_iff i at.0).0 same in
        let again : port ≡ q = some-injective _ _ (sym e ∙ (ap (get_elem? ports) place ∙ reads)) in
        (
          record port { release_cycle = release },
          fu,
          ap (get_elem? blocked) (sym place)
              ∙ get_elem?-set_self ports i (record port { release_cycle = release })
                  (get_elem?-lt ports i port e),
          ap (λ (p : Port). get_elem? p.units at.1) again ∙ here,
          piped,
        )
  ]

-- What holds of ports that are blocked.
pub record Blocks (u : IssueUnit) (ports ports' : List Port) : Type 0 where
  pub counted : IsCounted u ports → IsCounted u ports'
  pub numbered : IsNumbered ports → IsNumbered ports'
  pub units : (busy : Bool) (at : UnitPlace) → IsUnit u ports busy at → IsUnit u ports' busy at

pub block_ports-Blocks :
    (u : IssueUnit) (cycle n : ℕ) (ids : List ℕ) (mapping : List (ℕ × List ℕ)) (ports : List Port)
    → length ports ≡ n
    → IsNumbered ports
    → All (λ id. id < n) ids
    → length ids ≡ length mapping
    → (ports' : List Port) × (block_ports cycle ids mapping ports ≡ some ports')
      × Blocks u ports ports'
unfolding block_ports
block_ports-Blocks u cycle n [] mapping ports len num h same =
    (ports, refl, record { counted = λ k. k; numbered = λ k. k; units = λ busy at k. k })
block_ports-Blocks u cycle n (i ∷ is) [] ports len num h same = absurd (omega (arith, same))
block_ports-Blocks u cycle n (i ∷ is) ((stall, ids) ∷ mapping) ports len num (inside, h) same =
    let (port, read) = get_elem?-in ports i (omega (arith, inside, len)) in
    let p' = record port { release_cycle = cycle + stall } in
    let numbered = IsNumbered-set ports i p' (num i port read) in
    let (ports', blocks, b) =
      block_ports-Blocks u cycle n is mapping (set ports i p') (length-set ports i p' ∙ len)
        (numbered num) h (omega (arith, same)) in
    (
      ports',
      rw read blocks,
      record {
        counted = λ k. b.counted (blocked-IsCounted u ports i port (cycle + stall) read k);
        numbered = λ k. b.numbered (numbered k);
        units = λ busy at k.
            b.units busy at (blocked-IsUnit u ports i port (cycle + stall) read busy at k);
      },
    )
