-- ===== src/LsUnit/Forward.antt =====
-- Which store a load takes its data from (`forwardData` and `getAliasOp` of sim/src/lsu.cpp).
use cisim.Prelude.{
  ℕ, suc, ◌+◌, ◌≤◌, ◌<◌, ◌≡◌, ◌≢◌, ◌⊎◌, inl, inr, refl, sym, ap, ◌∙◌, arith, ◌==◌, ltb, Bool, true,
  false, Bool-cases, List, [], ◌∷◌, All, All-get_elem?, get_elem?, Option, none, some,
}
use cisim.Prelude.Dict.{lookup}
use cisim.Operation.{Operation, Ops}
use cisim.LoadStoreQueue.{LdstqEntry, Ldstq}
use cisim.LoadStoreQueue.Valid.{IsQueue}
use cisim.LsUnit.{matches, youngest_store, forward_data}

shift : (i k : ℕ) → suc i + k ≡ i + suc k
shift i k = omega arith

shift_zero : (i : ℕ) → i ≡ i + 0
shift_zero i = omega arith

module _ (ops : Ops) (skips : Operation → Bool) (op : ℕ) where
  -- The number of the operation of an entry.
  abbrev id_of : LdstqEntry → ℕ
  id_of e = (ops e.op).dyn_id

  abbrev Matches : LdstqEntry → Type 0
  Matches e = matches ops skips op e ≡ true

  -- No matching entry has the number.
  abbrev Fresh : ℕ → List LdstqEntry → Type 0
  Fresh best es = All (λ e. Matches e → id_of e ≢ best) es

  -- No two matching entries have one number.
  abbrev Apart : List LdstqEntry → Type 0
  Apart [] = Unit
  Apart (e ∷ es) = (Matches e → Fresh (id_of e) es) × Apart es

  abbrev Below : ℕ → List LdstqEntry → Type 0
  Below best es = All (λ e. Matches e → id_of e ≤ best) es

  Below-le : (low high : ℕ) (es : List LdstqEntry) → low ≤ high → Below low es → Below high es
  Below-le low high [] le h = tt
  Below-le low high (e ∷ es) le (b, h) = ((λ m. omega (arith, le, b m)), Below-le low high es le h)

  -- What the loop returns: what it had, or the youngest of the matching entries that are younger.
  abbrev Scanned : List LdstqEntry → ℕ → Option ℕ → ℕ → Option ℕ → Type 0
  Scanned es i ret best r =
      ((r ≡ ret) × Below best es)
      ⊎ ((k : ℕ) × (e : LdstqEntry) × (r ≡ some (i + k))
          × (get_elem? es k ≡ some e)
          × Matches e
          × (best < id_of e)
          × Below (id_of e) es)

  scan :
      (es : List LdstqEntry) (i : ℕ) (ret : Option ℕ) (best : ℕ)
      → Apart es
      → Fresh best es
      → (r : Option ℕ) × (youngest_store ops skips op es i ret best ≡ some r)
        × Scanned es i ret best r
  unfolding youngest_store
  scan [] i ret best apart fresh = (ret, refl, inl (refl, tt))
  scan (e ∷ es) i ret best (apart, rest) (new, fresh) = elim (Bool-cases (matches ops skips op e)) [
    | inr miss ↦
        let (r, run, result) = scan es (suc i) ret best rest fresh in
        (
          r,
          rw miss run,
          elim result [
            | inl (same, below) ↦ inl (same, ((λ m. absurd (ground (arith, m, miss))), below))
            | inr (k, d, at, read, m, gt, below) ↦ inr (
              suc k,
              d,
              at ∙ ap some (shift i k),
              read,
              m,
              gt,
              ((λ p. absurd (ground (arith, p, miss))), below),
            )
          ],
        )
    | inl hit ↦
        let differs : (id_of e == best) ≡ false = ground (arith, new hit) in
        elim (Bool-cases (ltb best (id_of e))) [
          | inl better ↦
              let (r, run, result) = scan es (suc i) (some i) (id_of e) rest (apart hit) in
              (
                r,
                rw (hit, differs, better) run,
                elim result [
                  | inl (same, below) ↦ inr (
                    0,
                    e,
                    same ∙ ap some (shift_zero i),
                    refl,
                    hit,
                    ground (arith, better),
                    ((λ m. omega arith), below),
                  )
                  | inr (k, d, at, read, m, gt, below) ↦ inr (
                    suc k,
                    d,
                    at ∙ ap some (shift i k),
                    read,
                    m,
                    ground (arith, better, gt),
                    ((λ p. omega (arith, gt)), below),
                  )
                ],
              )
          | inr worse ↦
              let (r, run, result) = scan es (suc i) ret best rest fresh in
              (
                r,
                rw (hit, differs, worse) run,
                elim result [
                  | inl (same, below) ↦ inl (same, ((λ m. ground (arith, worse)), below))
                  | inr (k, d, at, read, m, gt, below) ↦ inr (
                    suc k,
                    d,
                    at ∙ ap some (shift i k),
                    read,
                    m,
                    gt,
                    ((λ p. ground (arith, worse, gt)), below),
                  )
                ],
              )
        ]
  ]

-- What holds of every element read by index holds of all.
All-of_get :
    {A : Type 0} (P : A → Type 0) (xs : List A)
    → ((i : ℕ) (a : A) → get_elem? xs i ≡ some a → P a)
    → All P xs
All-of_get P [] h = tt
All-of_get P (x ∷ xs) h = (h 0 x refl, All-of_get P xs (λ i a e. h (suc i) a e))

module _ (ops : Ops) (skips : Operation → Bool) (op : ℕ) where
  Apart-of_get :
      (es : List LdstqEntry)
      → ((i j : ℕ) (d e : LdstqEntry)
          → get_elem? es i ≡ some d
          → get_elem? es j ≡ some e
          → Matches ops skips op d
          → Matches ops skips op e
          → id_of ops skips op d ≡ id_of ops skips op e
          → i ≡ j)
      → Apart ops skips op es
  Apart-of_get [] h = tt
  Apart-of_get (e ∷ es) h = (
    (λ m.
        All-of_get (λ d. Matches ops skips op d → id_of ops skips op d ≢ id_of ops skips op e) es
          (λ j d r p. λ same. absurd (omega (arith, h (suc j) 0 d e r refl p m same)))),
    Apart-of_get es
        (λ i j d d' r r' m m' same. omega (arith, h (suc i) (suc j) d d' r r' m m' same)),
  )

  -- What a load finds in a store queue: nothing if no store matches, else the youngest match.
  abbrev pub Youngest : Ldstq → Option ℕ → Type 0
  Youngest stq r =
      ((r ≡ none)
        × ((j : ℕ) (d : LdstqEntry)
            → get_elem? stq.queue j ≡ some d
            → matches ops skips op d ≡ false))
      ⊎ ((k : ℕ) × (e : LdstqEntry) × (r ≡ some k)
          × (get_elem? stq.queue k ≡ some e)
          × (matches ops skips op e ≡ true)
          × ((j : ℕ) (d : LdstqEntry)
              → get_elem? stq.queue j ≡ some d
              → matches ops skips op d ≡ true
              → (ops d.op).dyn_id ≤ (ops e.op).dyn_id))

module _ (ops : Ops) (skips : Operation → Bool) (op : ℕ) (stq : Ldstq) (v : IsQueue ops stq) where
  matching-Apart : Apart ops skips op stq.queue
  matching-Apart = Apart-of_get ops skips op stq.queue (λ i j d e r r' m m' same. ground (
    arith,
    m,
    m',
    v.mapped i d r,
    v.mapped j e r',
    v.own i d r,
    v.own j e r',
    same,
    ap (λ (k : ℕ). lookup k stq.entry_map)
        (sym (v.own i d r (ground (arith, m))) ∙ same ∙ v.own j e r' (ground (arith, m'))),
  ))

  none_matches :
      (j : ℕ) (d : LdstqEntry)
      → get_elem? stq.queue j ≡ some d
      → (Matches ops skips op d → id_of ops skips op d ≤ 0)
      → (matches ops skips op d ≡ true → 0 < (ops d.op).dyn_id)
      → matches ops skips op d ≡ false
  none_matches j d read low high = elim (Bool-cases (matches ops skips op d)) [
    | inl hit ↦ absurd (omega (arith, low hit, high hit))
    | inr miss ↦ miss
  ]

  start : (k : ℕ) → 0 + k ≡ k
  start k = omega arith

  youngest_store-Youngest :
      ((j : ℕ) (d : LdstqEntry)
        → get_elem? stq.queue j ≡ some d
        → matches ops skips op d ≡ true
        → 0 < (ops d.op).dyn_id)
      → (r : Option ℕ) × (youngest_store ops skips op stq.queue 0 none 0 ≡ some r)
        × Youngest ops skips op stq r
  youngest_store-Youngest positive =
      let fresh =
        All-of_get (λ e. Matches ops skips op e → id_of ops skips op e ≢ 0) stq.queue
          (λ j d r m. λ zero_id. absurd (omega (arith, positive j d r m, zero_id))) in
      let (r, run, result) = scan ops skips op stq.queue 0 none 0 matching-Apart fresh in
      (
        r,
        run,
        elim result [
          | inl (same, below) ↦ inl (
            same,
            λ j d read.
                none_matches j d read
                  (All-get_elem? (λ e. Matches ops skips op e → id_of ops skips op e ≤ 0) stq.queue
                    j below read)
                  (positive j d read),
          )
          | inr (k, e, at, read, m, gt, below) ↦ inr (
            k,
            e,
            at ∙ ap some (start k),
            read,
            m,
            λ j d r.
                All-get_elem?
                  (λ x. Matches ops skips op x → id_of ops skips op x ≤ id_of ops skips op e)
                  stq.queue j below r,
          )
        ],
      )

-- On a well-formed store queue in which no older store of the load's address has the number 0,
-- `forwardData` fails no assertion. It returns a null pointer exactly if there is no such store, and
-- otherwise the entry of the youngest of them.
pub forward_data-Youngest :
    (ops : Ops) (stq : Ldstq) (op : ℕ)
    → IsQueue ops stq
    → ((j : ℕ) (d : LdstqEntry)
        → get_elem? stq.queue j ≡ some d
        → matches ops (λ o. false) op d ≡ true
        → 0 < (ops d.op).dyn_id)
    → (r : Option ℕ) × (forward_data ops stq op ≡ some r) × Youngest ops (λ o. false) op stq r
unfolding forward_data
forward_data-Youngest ops stq op v positive =
    youngest_store-Youngest ops (λ o. false) op stq v positive
