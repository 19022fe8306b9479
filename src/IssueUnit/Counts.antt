-- ===== src/IssueUnit/Counts.antt =====
-- The counts of free units (`fuAvalMap` of sim/include/issue_unit.h) against the units of the ports.
use cisim.Prelude.{
  ℕ, ◌+◌, ◌-◌, ◌<◌, ◌≡◌, ◌≢◌, inl, inr, refl, sym, ap, ◌∙◌, arith, Bool, true, false, not, ◌&&◌,
  Option-cases, ltb, ◌==◌, if◌then◌else◌, List, [], ◌∷◌, All, get_elem?, set, get_elem?-set_ne,
  get_elem?-set_self, get_elem?-set_cases, get_elem?-lt, some,
}
use cisim.Prelude.Dict.{lookup, lookup-insert}
use cisim.Prelude.Dict
use cisim.PriorityQueue.{tally, tally-set}
use cisim.IssueUnit.{IssueUnit, Port, UnitPlace, value_at, is_pipelined, unit_at, mark, occupy_fu}
use cisim.IssueUnit.Schedule.{count_taken}

abbrev pub one : ℕ → ℕ × Bool → ℕ
one fu (kind, busy) = if fu == kind && not busy then 1 else 0

abbrev pub free_here : ℕ → Port → ℕ
free_here fu port = tally (λ (e : ℕ × Bool). one fu e) port.units

-- The free units of a kind.
abbrev pub free_units : ℕ → List Port → ℕ
free_units fu ports = tally (free_here fu) ports

abbrev pub IsCounted : IssueUnit → List Port → Type 0
IsCounted u ports = (fu : ℕ) → value_at fu u.fu_aval_map ≡ free_units fu ports

-- The number of a port is its place.
abbrev pub IsNumbered : List Port → Type 0
IsNumbered ports = (i : ℕ) (port : Port) → get_elem? ports i ≡ some port → port.port_id ≡ i

-- A unit that is not pipelined, and whether it is busy.
abbrev pub IsUnit : IssueUnit → List Port → Bool → UnitPlace → Type 0
IsUnit u ports busy at =
    (port : Port) × (fu : ℕ) × (get_elem? ports at.0 ≡ some port)
    × (get_elem? port.units at.1 ≡ some (fu, busy))
    × (is_pipelined u fu ≡ false)

-- Units on ports of their own.
abbrev pub IsApart : List UnitPlace → Type 0
IsApart [] = Unit
IsApart (at ∷ ats) = All (λ (b : UnitPlace). at.0 ≢ b.0) ats × IsApart ats

value_at-insert :
    (key other n : ℕ) (m : List (ℕ × ℕ))
    → value_at other (Dict.insert key n m) ≡ (if key == other then n else value_at other m)
value_at-insert key other n m = ground (arith, lookup-insert key other n m)

free_units-mark :
    (other i k : ℕ) (ports : List Port) (port : Port) (fu : ℕ) (busy after : Bool)
    → get_elem? ports i ≡ some port
    → get_elem? port.units k ≡ some (fu, busy)
    → free_units other (mark ports (i, k) port fu after) + one other (fu, busy)
      ≡ free_units other ports + one other (fu, after)
free_units-mark other i k ports port fu busy after e e' =
    let p' = record port { units = set port.units k (fu, after) } in
    omega (
      arith,
      tally-set (free_here other) ports i port p' e,
      tally-set (λ (e : ℕ × Bool). one other e) port.units k (fu, busy) (fu, after) e',
    )

unit_at-read :
    (ports : List Port) (at : UnitPlace) (port : Port) (fu : ℕ) (busy : Bool)
    → get_elem? ports at.0 ≡ some port
    → get_elem? port.units at.1 ≡ some (fu, busy)
    → unit_at ports at ≡ some (port, fu, busy)
unfolding unit_at
unit_at-read ports at port fu busy e e' = rw (e, e') refl

-- A write to a port leaves the units of the others.
unit_at-other :
    (ports : List Port) (i : ℕ) (p : Port) (b : UnitPlace)
    → i ≢ b.0
    → unit_at (set ports i p) b ≡ unit_at ports b
unfolding unit_at
unit_at-other ports i p b other = rw (get_elem?-set_ne ports i b.0 p other) refl

count_taken-set :
    (ports : List Port) (i : ℕ) (p : Port) (ats : List UnitPlace) (u : IssueUnit)
    → All (λ (b : UnitPlace). i ≢ b.0) ats
    → count_taken (set ports i p) ats u ≡ count_taken ports ats u
unfolding count_taken
count_taken-set ports i p [] u h = refl
count_taken-set ports i p (at ∷ ats) u (other, h) = elim (Option-cases (unit_at ports at)) [
  | inl out ↦ rw (unit_at-other ports i p at other, out) refl
  | inr ((port, fu, busy), read) ↦
      let u' = if is_pipelined u fu then u else record u {
        fu_aval_map = Dict.insert fu (value_at fu u.fu_aval_map - 1) u.fu_aval_map;
      } in
      rw (unit_at-other ports i p at other, read, count_taken-set ports i p ats u' h) refl
]

pub IsUnit-set :
    (u : IssueUnit) (ports : List Port) (i : ℕ) (p : Port) (busy : Bool) (at : UnitPlace)
    → i ≢ at.0
    → IsUnit u ports busy at
    → IsUnit u (set ports i p) busy at
IsUnit-set u ports i p busy at other (port, fu, e, reads, piped) =
    (port, fu, get_elem?-set_ne ports i at.0 p other ∙ e, reads, piped)

pub IsNumbered-set :
    (ports : List Port) (i : ℕ) (p : Port)
    → p.port_id ≡ i
    → IsNumbered ports
    → IsNumbered (set ports i p)
IsNumbered-set ports i p own h j q e = elim (get_elem?-set_cases ports i j p q e) [
  | inl (same, written) ↦ ap (λ (r : Port). r.port_id) (sym written) ∙ (own ∙ same)
  | inr (other, kept) ↦ h j q kept
]

-- What taking units leaves: they are busy, the counts agree, and the ports of others are as they were.
pub record Takes (u : IssueUnit) (ports : List Port) (ats : List UnitPlace) (u' : IssueUnit)
    (ports' : List Port) : Type 0 where
  pub counted : IsCounted u' ports'
  pub numbered : IsNumbered ports'
  pub pipes : u'.fu_pipe_map ≡ u.fu_pipe_map
  pub busy : All (IsUnit u ports' true) ats
  pub others :
      (i : ℕ) → All (λ (b : UnitPlace). i ≢ b.0) ats → get_elem? ports' i ≡ get_elem? ports i

-- The count of a kind with one unit less.
counts_one :
    (u : IssueUnit) (ports : List Port) (i k : ℕ) (port : Port) (fu : ℕ)
    → IsCounted u ports
    → get_elem? ports i ≡ some port
    → get_elem? port.units k ≡ some (fu, false)
    → (0 < value_at fu u.fu_aval_map)
      × IsCounted
          (record u { fu_aval_map = Dict.insert fu (value_at fu u.fu_aval_map - 1) u.fu_aval_map })
          (mark ports (i, k) port fu true)
counts_one u ports i k port fu h e e' = (
  ground (arith, h fu, free_units-mark fu i k ports port fu false true e e'),
  λ other.
      value_at-insert fu other (value_at fu u.fu_aval_map - 1) u.fu_aval_map
      ∙ ground (arith, h other, h fu, free_units-mark other i k ports port fu false true e e'),
)

kept_all :
    (u : IssueUnit) (ports : List Port) (i : ℕ) (p : Port) (busy : Bool) (ats : List UnitPlace)
    → All (λ (b : UnitPlace). i ≢ b.0) ats
    → All (IsUnit u ports busy) ats
    → All (IsUnit u (set ports i p) busy) ats
kept_all u ports i p busy [] h k = tt
kept_all u ports i p busy (at ∷ ats) (ne, h) (q, k) =
    (IsUnit-set u ports i p busy at ne q, kept_all u ports i p busy ats h k)

-- Units that are free, on ports of their own, can be counted and occupied.
pub take-Takes :
    (ats : List UnitPlace) (u : IssueUnit) (ports : List Port)
    → IsCounted u ports
    → IsNumbered ports
    → IsApart ats
    → All (IsUnit u ports false) ats
    → (u' : IssueUnit) × (ports' : List Port) × (count_taken ports ats u ≡ some u')
      × ((reader : IssueUnit)
          → reader.fu_pipe_map ≡ u.fu_pipe_map
          → occupy_fu reader ats ports ≡ some ports')
      × Takes u ports ats u' ports'
unfolding count_taken occupy_fu
take-Takes [] u ports h n apart free = (
  u,
  ports,
  refl,
  (λ reader same. refl),
  record { counted = h; numbered = n; pipes = refl; busy = tt; others = λ i k. refl },
)
take-Takes (at ∷ ats) u ports h n (own, apart) ((port, fu, e, e', piped), free) =
    let read = unit_at-read ports at port fu false e e' in
    let p' = record port { units = set port.units at.1 (fu, true) } in
    let ports1 = set ports at.0 p' in
    let u1 = record u {
      fu_aval_map = Dict.insert fu (value_at fu u.fu_aval_map - 1) u.fu_aval_map;
    } in
    let (left, h1) = counts_one u ports at.0 at.1 port fu h e e' in
    let some_left : ltb 0 (value_at fu u.fu_aval_map) ≡ true = ground (arith, left) in
    let n1 = IsNumbered-set ports at.0 p' (n at.0 port e) n in
    let free1 = kept_all u ports at.0 p' false ats own free in
    let (u', ports', counts, occupies, t) = take-Takes ats u1 ports1 h1 n1 apart free1 in
    let first : IsUnit u ports' true at = (
      p',
      fu,
      t.others at.0 own ∙ get_elem?-set_self ports at.0 p' (get_elem?-lt ports at.0 port e),
      get_elem?-set_self port.units at.1 (fu, true) (get_elem?-lt port.units at.1 (fu, false) e'),
      piped,
    ) in
    (
      u',
      ports',
      rw (read, some_left, piped) (sym (count_taken-set ports at.0 p' ats u1 own) ∙ counts),
      (λ reader same.
          let piped' : is_pipelined reader fu ≡ false =
            ap (λ m. not (value_at fu m == 0)) same ∙ piped in
          rw (read, piped') (occupies reader same)),
      record {
        counted = t.counted;
        numbered = t.numbered;
        pipes = t.pipes;
        busy = (first, t.busy);
        others = λ i (ne, k). t.others i k ∙ get_elem?-set_ne ports at.0 i p' (λ s. ne (sym s));
      },
    )
