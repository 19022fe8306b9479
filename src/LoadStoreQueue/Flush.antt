-- ===== src/LoadStoreQueue/Flush.antt =====
-- `flush` of a load or store queue (`LDSTQ` of sim/include/lsu.h).
use cisim.Prelude.{
  ℕ, zero, suc, ◌+◌, ◌-◌, ◌≤◌, ◌≡◌, refl, sym, ap, ◌∙◌, arith, inl, inr, true, false, Bool-cases,
  ltb, List, [], ◌∷◌, length, get_elem?, some,
}
use mathlib.Core.Option.{some-injective}
use cisim.Operation.{Ops}
use cisim.LoadStoreQueue.{LdstqEntry, Ldstq, empty_entry, squashed, flush_entries, flush}
use cisim.LoadStoreQueue.Valid.{IsQueue, in_use, live}

-- The entries after the loop of `flush`.
abbrev pub Flushed : Ops → List LdstqEntry → List LdstqEntry → Type 0
Flushed ops es es' =
    (length es' ≡ length es)
    × ((i : ℕ) (e : LdstqEntry)
        → get_elem? es' i ≡ some e
        → e.empty ≡ false
        → (get_elem? es i ≡ some e) × ((ops e.op).is_squashed ≡ false))
    × ((i : ℕ) (e : LdstqEntry)
        → get_elem? es i ≡ some e
        → e.empty ≡ false
        → (ops e.op).is_squashed ≡ false
        → get_elem? es' i ≡ some e)

Flushed-drop :
    (ops : Ops) (e : LdstqEntry) (es es' : List LdstqEntry)
    → Flushed ops es es'
    → (i : ℕ) (d : LdstqEntry) → get_elem? (empty_entry ∷ es') i ≡ some d
    → d.empty ≡ false
    → (get_elem? (e ∷ es) i ≡ some d) × ((ops d.op).is_squashed ≡ false)
Flushed-drop ops e es es' h zero d r b =
    absurd (ground (arith, ap (λ (x : LdstqEntry). x.empty) (some-injective _ _ r), b))
Flushed-drop ops e es es' h (suc i) d r b = h.1 i d r b

spared_drop :
    (ops : Ops) (e : LdstqEntry) (es es' : List LdstqEntry)
    → squashed ops e ≡ true
    → Flushed ops es es'
    → (i : ℕ) (d : LdstqEntry) → get_elem? (e ∷ es) i ≡ some d
    → d.empty ≡ false
    → (ops d.op).is_squashed ≡ false
    → get_elem? (empty_entry ∷ es') i ≡ some d
spared_drop ops e es es' gone h zero d r b quiet =
    let squashes : (ops e.op).is_squashed ≡ true = ground (arith, gone) in
    absurd
      (cc (ap (λ (x : LdstqEntry). (ops x.op).is_squashed) (some-injective _ _ r), squashes, quiet))
spared_drop ops e es es' gone h (suc i) d r b quiet = h.2 i d r b quiet

spared_keep :
    (ops : Ops) (e : LdstqEntry) (es es' : List LdstqEntry)
    → Flushed ops es es'
    → (i : ℕ) (d : LdstqEntry) → get_elem? (e ∷ es) i ≡ some d
    → d.empty ≡ false
    → (ops d.op).is_squashed ≡ false
    → get_elem? (e ∷ es') i ≡ some d
spared_keep ops e es es' h zero d r b quiet = r
spared_keep ops e es es' h (suc i) d r b quiet = h.2 i d r b quiet

Flushed-keep :
    (ops : Ops) (e : LdstqEntry) (es es' : List LdstqEntry)
    → squashed ops e ≡ false
    → Flushed ops es es'
    → (i : ℕ) (d : LdstqEntry) → get_elem? (e ∷ es') i ≡ some d
    → d.empty ≡ false
    → (get_elem? (e ∷ es) i ≡ some d) × ((ops d.op).is_squashed ≡ false)
Flushed-keep ops e es es' quiet h zero d r b = (
  r,
  let same = some-injective _ _ r in
      let busy : e.empty ≡ false = ap (λ (x : LdstqEntry). x.empty) same ∙ b in
      let kept : (ops e.op).is_squashed ≡ false = ground (arith, quiet, busy) in
      ap (λ (x : LdstqEntry). (ops x.op).is_squashed) (sym same) ∙ kept,
)
Flushed-keep ops e es es' quiet h (suc i) d r b = h.1 i d r b

flush_entries-Flushed :
    (ops : Ops) (es : List LdstqEntry) (used : ℕ)
    → live es ≤ used
    → (es' : List LdstqEntry) × (used' : ℕ) × (flush_entries ops es used ≡ some (es', used'))
      × Flushed ops es es'
      × (used' + live es ≡ used + live es')
unfolding flush_entries
flush_entries-Flushed ops [] used h =
    ([], used, refl, (refl, (λ i e r b. absurd (cc)), λ i e r b q. absurd (cc)), refl)
flush_entries-Flushed ops (e ∷ es) used h = elim (Bool-cases (squashed ops e)) [
  | inl gone ↦
      let busy : in_use e ≡ 1 = ground (arith, gone) in
      let positive : ltb 0 used ≡ true = ground (arith, h, busy) in
      let (es', used', done, flushed, sum) =
        flush_entries-Flushed ops es (used - 1) (omega (arith, h, busy)) in
      (
        empty_entry ∷ es',
        used',
        rw (flush_entries, gone, positive, done) refl,
        (
          omega (arith, flushed.0),
          Flushed-drop ops e es es' flushed,
          spared_drop ops e es es' gone flushed,
        ),
        omega (arith, h, sum, busy),
      )
  | inr quiet ↦
      let (es', used', done, flushed, sum) = flush_entries-Flushed ops es used (omega (arith, h)) in
      (
        e ∷ es',
        used',
        rw (flush_entries, quiet, done) refl,
        (
          omega (arith, flushed.0),
          Flushed-keep ops e es es' quiet flushed,
          spared_keep ops e es es' flushed,
        ),
        omega (arith, sum),
      )
]

-- `flush` fails no assertion and leaves a well-formed queue of the same length. Every entry that is in
-- use after it was there before, at its place, and is not of a squashed operation, and every entry that
-- was in use and is not of a squashed operation is still there.
pub flush-IsQueue :
    (ops : Ops) (q : Ldstq)
    → IsQueue ops q
    → (q' : Ldstq) × (flush ops q ≡ some q') × IsQueue ops q' × Flushed ops q.queue q'.queue
unfolding flush
flush-IsQueue ops q v =
    let (es', used', done, flushed, sum) =
      flush_entries-Flushed ops q.queue q.used_size (omega (arith, v.used)) in
    (
      record q { queue = es'; used_size = used' },
      rw done refl,
      record {
        width = flushed.0 ∙ v.width;
        used = omega (arith, v.used, sum);
        sorted = v.sorted;
        in_range = v.in_range;
        one_key = v.one_key;
        mapped = λ i e r b. v.mapped i e (flushed.1 i e r b).0 b;
        own = λ i e r b. v.own i e (flushed.1 i e r b).0 b;
      },
      flushed,
    )
