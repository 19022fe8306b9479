-- ===== src/IssueUnit/Find.antt =====
-- The units that an alternative of an operation finds (`getAvailablePort` and the loops over the kinds of
-- sim/src/issue_unit.cpp).
use cisim.Prelude.{
  ℕ, suc, ◌+◌, ◌≡◌, ◌≢◌, ◌⊎◌, inl, inr, refl, sym, ap, ap₂, subst, ◌∙◌, arith, Bool, true, false,
  not, ◌&&◌, ◌||◌, Bool-cases, Option-cases, ◌==◌, if◌then◌else◌, List, [], ◌∷◌, ◌++◌, All, All-map,
  All-snoc, get_elem?, some, none,
}
use mathlib.Core.Option.{some-injective}
use cisim.IssueUnit.{
  IssueUnit, Port, UnitPlace, is_in, is_pipelined, free_unit, may_use, get_available_port,
}
use cisim.IssueUnit.Schedule.{Found, find_units}
use cisim.IssueUnit.Counts.{IsUnit, IsApart, IsNumbered}

pub is_in-append : (n : ℕ) (ms ns : List ℕ) → is_in n (ms ++ ns) ≡ (is_in n ms || is_in n ns)
is_in-append n [] ns = refl
is_in-append n (m ∷ ms) ns = ground (arith, is_in-append n ms ns)

-- A number stays in a list that grows.
pub is_in-grows : (n : ℕ) (ms ns : List ℕ) → is_in n ms ≡ true → is_in n (ms ++ ns) ≡ true
is_in-grows n ms ns h = rw (is_in-append n ms ns, h) refl

pub is_in-last : (n : ℕ) (ms : List ℕ) → is_in n (ms ++ n ∷ []) ≡ true
is_in-last n ms = ground (arith, is_in-append n ms (n ∷ []))

IsApart-snoc :
    (ats : List UnitPlace) (at : UnitPlace)
    → IsApart ats
    → All (λ (b : UnitPlace). b.0 ≢ at.0) ats
    → IsApart (ats ++ at ∷ [])
IsApart-snoc [] at h k = (tt, tt)
IsApart-snoc (a ∷ ats) at (own, h) (ne, k) =
    (All-snoc (λ (b : UnitPlace). a.0 ≢ b.0) ats at own ne, IsApart-snoc ats at h k)

free_unit-reads :
    (fu : ℕ) (units : List (ℕ × Bool)) (i k : ℕ)
    → free_unit fu units i ≡ some k
    → (d : ℕ) × (k ≡ i + d) × (get_elem? units d ≡ some (fu, false))
unfolding free_unit
free_unit-reads fu [] i k e = absurd (cc)
free_unit-reads fu ((kind, busy) ∷ rest) i k e =
    let later = free_unit fu rest (suc i) in
    elim (Bool-cases (fu == kind && not busy)) [
      | inl free ↦
          let both : (kind ≡ fu) × (busy ≡ false) = ground (arith, free) in
          let here : some i ≡ some k = ap (λ b. if b then some i else later) (sym free) ∙ e in
          (0, omega (arith, some-injective _ _ here), ap some (ap₂ (λ a b. (a, b)) both.0 both.1))
      | inr other ↦
          let (d, at, reads) =
            free_unit-reads fu rest (suc i) k
              (ap (λ b. if b then some i else later) (sym other) ∙ e) in
          (suc d, omega (arith, at), reads)
    ]

-- Ports with their places, all of them good.
abbrev pub IsPlaced : List Port → (ℕ → Type 0) → List (ℕ × Port) → Type 0
IsPlaced ports Good candidates =
    All (λ (c : ℕ × Port). (get_elem? ports c.0 ≡ some c.1) × Good c.0) candidates

module _ (u : IssueUnit) (ports : List Port) (allowed : List ℕ) (Good : ℕ → Type 0)
    (cycle : ℕ) where
  abbrev Finds : ℕ → List ℕ → UnitPlace → Port → Type 0
  Finds fu taken at port =
      (get_elem? ports at.0 ≡ some port)
      × Good at.0
      × (get_elem? port.units at.1 ≡ some (fu, false))
      × (is_in port.port_id allowed ≡ true)
      × (is_in port.port_id taken ≡ false)

  get_available_port-Finds :
      (fu : ℕ) (candidates : List (ℕ × Port)) (taken : List ℕ)
      → IsPlaced ports Good candidates
      → (get_available_port u fu allowed candidates taken cycle ≡ none)
        ⊎ ((at : UnitPlace) × (port : Port) × (get_available_port u fu allowed candidates taken
                cycle
              ≡ some (at, port))
            × Finds fu taken at port)
  unfolding get_available_port
  get_available_port-Finds fu [] taken h = inl refl
  get_available_port-Finds fu ((i, port) ∷ rest) taken ((reads, good), h) =
      elim (Bool-cases (may_use u allowed taken cycle port)) [
        | inr other ↦ rw other (get_available_port-Finds fu rest taken h)
        | inl may ↦ elim (Option-cases (free_unit fu port.units 0)) [
          | inl none_free ↦ rw (may, none_free) (get_available_port-Finds fu rest taken h)
          | inr (k, free) ↦
              let (d, at, here) = free_unit-reads fu port.units 0 k free in
              let place : k ≡ d = omega (arith, at) in
              inr (
                (i, k),
                port,
                rw (may, free) refl,
                (
                  reads,
                  good,
                  ap (get_elem? port.units) place ∙ here,
                  ground (arith, may),
                  ground (arith, may),
                ),
              )
        ]
      ]

  -- The units found so far, where `base` was taken before.
  pub record IsFound (base : List ℕ) (found : Found) : Type 0 where
    pub units : All (IsUnit u ports false) found.aval
    pub apart : IsApart found.aval
    pub chosen :
        All
          (λ (at : UnitPlace). Good at.0 × (is_in at.0 allowed ≡ true) × (is_in at.0 base ≡ false))
          found.aval
    pub noted : All (λ (at : UnitPlace). is_in at.0 found.taken ≡ true) found.aval
    pub grown : (n : ℕ) → is_in n base ≡ true → is_in n found.taken ≡ true

  pub IsFound-keep :
      (base : List ℕ) (found : Found) (id : ℕ)
      → IsFound base found
      → IsFound base (record found { taken = found.taken ++ id ∷ [] })
  IsFound-keep base found id f = record {
    units = f.units;
    apart = f.apart;
    chosen = f.chosen;
    noted = All-map _ _ found.aval (λ at h. is_in-grows at.0 found.taken (id ∷ []) h) f.noted;
    grown = λ n h. is_in-grows n found.taken (id ∷ []) (f.grown n h);
  }

  IsFound-add :
      (base : List ℕ) (found : Found) (fu : ℕ) (at : UnitPlace) (port : Port)
      → IsNumbered ports
      → IsFound base found
      → Finds fu found.taken at port
      → is_pipelined u fu ≡ false
      → IsFound base
          (record { aval = found.aval ++ at ∷ []; taken = found.taken ++ port.port_id ∷ [] })
  IsFound-add base found fu at port n f (reads, good, here, may, fresh) piped =
      let own : port.port_id ≡ at.0 = n at.0 port reads in
      let fresh' : is_in at.0 found.taken ≡ false =
        subst (λ i. is_in i found.taken ≡ false) own fresh in
      let may' : is_in at.0 allowed ≡ true = subst (λ i. is_in i allowed ≡ true) own may in
      let kept = IsFound-keep base found port.port_id f in
      record {
        units =
            All-snoc (IsUnit u ports false) found.aval at f.units (port, fu, reads, here, piped);
        apart = IsApart-snoc found.aval at f.apart (
            All-map _ (λ (b : UnitPlace). b.0 ≢ at.0) found.aval
              (λ b old same. absurd (cc (old, fresh', same))) f.noted);
        chosen =
            All-snoc _ found.aval at f.chosen (good, may', ground (arith, fresh', f.grown at.0));
        noted = All-snoc _ found.aval at kept.noted (
            subst (λ i. is_in at.0 (found.taken ++ i ∷ []) ≡ true) (sym own)
              (is_in-last at.0 found.taken));
        grown = kept.grown;
      }

  -- The loop over the kinds of an alternative keeps all this.
  pub find_units-IsFound :
      (base : List ℕ) (candidates : List (ℕ × Port)) (fus : List (ℕ × ℕ)) (found : Found)
      → IsNumbered ports
      → IsPlaced ports Good candidates
      → IsFound base found
      → IsFound base (find_units u allowed candidates cycle fus found).0
  unfolding find_units
  find_units-IsFound base candidates [] found n h f = f
  find_units-IsFound base candidates ((count, fu) ∷ fus) found n h f =
      elim (get_available_port-Finds fu candidates found.taken h) [
        | inl none_found ↦ rw (find_units, none_found) f
        | inr (at, port, is_found, finds) ↦ elim (Bool-cases (is_pipelined u fu)) [
          | inl piped ↦
              rw (find_units, is_found, piped)
                (find_units-IsFound base candidates fus _ n h
                  (IsFound-keep base found port.port_id f))
          | inr own ↦
              rw (find_units, is_found, own)
                (find_units-IsFound base candidates fus _ n h
                  (IsFound-add base found fu at port n f finds own))
        ]
      ]
