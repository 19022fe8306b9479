-- ===== src/LsUnit/Violation.antt =====
-- When a store finds that younger loads went ahead of it (`LSUnit::shouldFlush` of sim/src/lsu.cpp).
use cisim.Prelude.{
  ℕ, zero, suc, ◌<◌, ◌≡◌, ◌⊎◌, ◌&&◌, ◌==◌, ltb, not, refl, sym, ap, subst, ◌∙◌, inl, inr, arith,
  Bool, true, false, Bool-cases, List, [], ◌∷◌, get_elem?, some,
}
use mathlib.Core.Option.{some-injective}
use cisim.Operation.{Ops, at_least, executing}
use cisim.LoadStoreQueue.{LdstqEntry}
use cisim.LsUnit.{LsUnit, violates, should_flush, should_flush_in}

module _ (ops : Ops) (op : ℕ) where
  -- A younger load of the address of the store `op` that is at least executing, or has its data from
  -- an older store.
  abbrev pub Violates : LdstqEntry → Type 0
  Violates e =
      (e.empty ≡ false)
      × ((ops op).dyn_id < e.dyn_id)
      × (e.address ≡ (ops op).addr)
      × (((e.data_forwarded ≡ false) × (at_least (ops e.op).status executing ≡ true))
          ⊎ ((e.data_forwarded ≡ true)
              × (f : ℕ) × (e.forward_op ≡ some f)
              × ((ops f).dyn_id < (ops op).dyn_id)))

  -- The store that a load has its data from is known.
  abbrev pub IsKnown : LdstqEntry → Type 0
  IsKnown e = e.data_forwarded ≡ true → (f : ℕ) × (e.forward_op ≡ some f)

  abbrev passes : LdstqEntry → Bool
  passes e = not e.empty && (ltb (ops op).dyn_id e.dyn_id && e.address == (ops op).addr)

  violates-lem :
      (e : LdstqEntry)
      → IsKnown e
      → ((violates ops op e ≡ some true) × Violates e)
        ⊎ ((violates ops op e ≡ some false) × ¬ (Violates e))
  violates-lem e known = elim (Bool-cases (passes e)) [
    | inr miss ↦ inr (simp miss, λ v. absurd (ground (arith, miss, v.0, v.1, v.2)))
    | inl hit ↦
        let used : e.empty ≡ false = ground (arith, hit) in
        let young : (ops op).dyn_id < e.dyn_id = ground (arith, hit) in
        let here : e.address ≡ (ops op).addr = ground (arith, hit) in
        elim (Bool-cases e.data_forwarded) [
          | inr fresh ↦ elim (Bool-cases (at_least (ops e.op).status executing)) [
            | inl runs ↦ inl (simp (hit, fresh, runs), (used, young, here, inl (fresh, runs)))
            | inr early ↦ inr (
              simp (hit, fresh, early),
              λ v. elim v.3 [
                | inl w ↦ absurd (ground (arith, w.1, early))
                | inr w ↦ absurd (ground (arith, w.0, fresh))
              ],
            )
          ]
          | inl forwarded ↦
              let (f, from) = known forwarded in
              elim (Bool-cases (ltb (ops f).dyn_id (ops op).dyn_id)) [
                | inl older ↦ inl (
                  simp (hit, forwarded, from, older),
                  (used, young, here, inr (forwarded, f, from, ground (arith, older))),
                )
                | inr newer ↦ inr (
                  simp (hit, forwarded, from, newer),
                  λ v. elim v.3 [
                    | inl w ↦ absurd (ground (arith, w.0, forwarded))
                    | inr w ↦
                        let same : f ≡ w.1 = some-injective _ _ (sym from ∙ w.2) in
                        absurd (ground (arith, ap (λ k. (ops k).dyn_id) same, w.3, newer))
                  ],
                )
              ]
        ]
  ]

  -- What the loop finds in the entries.
  abbrev pub Searched : List LdstqEntry → Bool → Type 0
  Searched es b =
      ((b ≡ true) × (i : ℕ) × (e : LdstqEntry) × (get_elem? es i ≡ some e) × Violates e)
      ⊎ ((b ≡ false) × ((i : ℕ) (e : LdstqEntry) → get_elem? es i ≡ some e → ¬ (Violates e)))

  none_here :
      (e : LdstqEntry) (es : List LdstqEntry)
      → ¬ (Violates e)
      → ((i : ℕ) (d : LdstqEntry) → get_elem? es i ≡ some d → ¬ (Violates d))
      → (i : ℕ) (d : LdstqEntry) → get_elem? (e ∷ es) i ≡ some d
      → ¬ (Violates d)
  none_here e es safe rest zero d r = λ v. safe (subst Violates (sym (some-injective _ _ r)) v)
  none_here e es safe rest (suc i) d r = rest i d r

  should_flush_in-Searched :
      (es : List LdstqEntry)
      → ((i : ℕ) (e : LdstqEntry) → get_elem? es i ≡ some e → IsKnown e)
      → (b : Bool) × (should_flush_in ops op es ≡ some b) × Searched es b
  unfolding should_flush_in
  should_flush_in-Searched [] known = (false, refl, inr (refl, λ i e r. absurd (cc)))
  should_flush_in-Searched (e ∷ es) known = elim (violates-lem e (known 0 e refl)) [
    | inl (hit, v) ↦ (true, rw hit refl, inl (refl, 0, e, refl, v))
    | inr (miss, v) ↦
        let (b, run, found) = should_flush_in-Searched es (λ i d r. known (suc i) d r) in
        (
          b,
          rw miss run,
          elim found [
            | inl w ↦ inl (w.0, suc w.1, w.2, w.3, w.4)
            | inr (same, rest) ↦ inr (same, none_here e es v rest)
          ],
        )
  ]

-- If every forwarded entry of the load queue knows its store, `shouldFlush` fails no assertion, and
-- says true exactly if the queue has an entry in use of a younger load with the address of the store
-- that either is at least executing without forwarded data, or has its data from an older store.
pub should_flush-Searched :
    (ops : Ops) (u : LsUnit) (op : ℕ)
    → ((i : ℕ) (e : LdstqEntry) → get_elem? u.ldq.queue i ≡ some e → IsKnown ops op e)
    → (b : Bool) × (should_flush ops u op ≡ some b) × Searched ops op u.ldq.queue b
should_flush-Searched ops u op known = should_flush_in-Searched ops op u.ldq.queue known
