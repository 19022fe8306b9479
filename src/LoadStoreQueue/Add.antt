-- ===== src/LoadStoreQueue/Add.antt =====
-- `addInstruction` of a load or store queue (`LDSTQ` of sim/include/lsu.h).
use cisim.Prelude.{
  ◌<◌, sym, ℕ, ◌+◌, ◌≡◌, ◌≢◌, refl, ap, subst, ◌∙◌, arith, inl, inr, true, false, ◌||◌, ◌==◌,
  ==_iff, Bool-cases, length-set, get_elem?, get_elem?-set_self, get_elem?-set_ne,
  get_elem?-set_cases, get_elem?-lt, set, some,
}
use mathlib.Core.Option.{some-injective}
use cisim.Prelude.Dict.{lookup, lookup-insert}
use cisim.Prelude.Dict
use cisim.Prelude.DictSorted.{insert-IsSorted}
use cisim.Prelude.DictOrder.{
  remove-IsSorted, lookup-remove, lookup-remove_ne, lookup-remove_self, remove_item_by_value,
}
use cisim.Operation.{Ops, is_load, is_store}
use cisim.LoadStoreQueue.{LdstqEntry, Ldstq, new_entry, add_instruction, if_full, entry_of}
use cisim.LoadStoreQueue.Valid.{IsQueue, first_empty-some, live-set}

-- A queue with an entry that was not in use filled by an operation.
abbrev pub added : Ops → Ldstq → ℕ → ℕ → Ldstq
added ops q op i = record q {
  queue = set q.queue i (new_entry ops op);
  entry_map = Dict.insert (ops op).dyn_id i (remove_item_by_value q.entry_map i);
  used_size = q.used_size + 1;
}

module _ (ops : Ops) (q : Ldstq) (op i : ℕ) (v : IsQueue ops q) where
  -- Two numbers mapped to one entry of the new map.
  added-one_key :
      (k j x : ℕ)
      → lookup k (added ops q op i).entry_map ≡ some x
      → lookup j (added ops q op i).entry_map ≡ some x
      → k ≡ j
  added-one_key k j x a b =
      let d = (ops op).dyn_id in
      let m = remove_item_by_value q.entry_map i in
      let gone = λ (c : ℕ). lookup-remove_self i c q.entry_map v.sorted (λ p r. v.one_key p r i) in
      ground (
        arith,
        a,
        b,
        lookup-insert d k i m,
        lookup-insert d j i m,
        gone k,
        gone j,
        lookup-remove i k x q.entry_map v.sorted,
        lookup-remove i j x q.entry_map v.sorted,
        v.one_key k j x,
      )

  added-mapped :
      ((j : ℕ) (e : LdstqEntry)
        → get_elem? q.queue j ≡ some e
        → e.empty ≡ false
        → e.dyn_id ≢ (ops op).dyn_id)
      → (j : ℕ) (e : LdstqEntry) → get_elem? (added ops q op i).queue j ≡ some e
      → e.empty ≡ false
      → (lookup e.dyn_id (added ops q op i).entry_map ≡ some j) × ((ops e.op).dyn_id ≡ e.dyn_id)
  added-mapped fresh j e r b =
      let m = remove_item_by_value q.entry_map i in
      let d = (ops op).dyn_id in
      elim (get_elem?-set_cases q.queue i j (new_entry ops op) e r) [
        | inl (same, written) ↦
            subst
              (λ (x : LdstqEntry).
                (lookup x.dyn_id (added ops q op i).entry_map ≡ some j)
                × ((ops x.op).dyn_id ≡ x.dyn_id))
              written (ground (arith, lookup-insert d d i m, same), refl)
        | inr (other, kept) ↦ (
          ground (
            arith,
            other,
            lookup-insert d e.dyn_id i m,
            fresh j e kept b,
            v.mapped j e kept b,
            lookup-remove_ne i e.dyn_id j q.entry_map,
          ),
          v.own j e kept b,
        )
      ]

  pub added-IsQueue :
      (e : LdstqEntry)
      → get_elem? q.queue i ≡ some e
      → e.empty ≡ true
      → ((j : ℕ) (d : LdstqEntry)
          → get_elem? q.queue j ≡ some d
          → d.empty ≡ false
          → d.dyn_id ≢ (ops op).dyn_id)
      → IsQueue ops (added ops q op i)
  added-IsQueue e read free fresh = record {
    width = length-set q.queue i (new_entry ops op) ∙ v.width;
    used = ground (arith, v.used, live-set q.queue i e (new_entry ops op) read, free);
    sorted =
        insert-IsSorted (ops op).dyn_id i (remove_item_by_value q.entry_map i)
          (remove-IsSorted i q.entry_map v.sorted);
    in_range = λ k x h. ground (
      arith,
      h,
      lookup-insert (ops op).dyn_id k i (remove_item_by_value q.entry_map i),
      lookup-remove i k x q.entry_map v.sorted,
      v.in_range k x,
      get_elem?-lt q.queue i e read,
      v.width,
    );
    one_key = added-one_key;
    mapped = λ j d r b. (added-mapped fresh j d r b).0;
    own = λ j d r b. (added-mapped fresh j d r b).1;
  }

-- On a queue that is not full, a load or store whose number has no entry in use gets one: no assertion
-- fails, the map finds the entry, one more entry is in use, and the queue stays well formed.
pub add_instruction-IsQueue :
    (ops : Ops) (q : Ldstq) (op : ℕ)
    → IsQueue ops q
    → if_full q ≡ false
    → (is_load (ops op) || is_store (ops op)) ≡ true
    → ((i : ℕ) (e : LdstqEntry)
        → get_elem? q.queue i ≡ some e
        → e.empty ≡ false
        → e.dyn_id ≢ (ops op).dyn_id)
    → (q' : Ldstq) × (i : ℕ) × (add_instruction ops q op ≡ some q')
      × IsQueue ops q'
      × (entry_of ops q' op ≡ some (i, new_entry ops op))
      × (q'.used_size ≡ q.used_size + 1)
unfolding add_instruction
add_instruction-IsQueue ops q op v room kind fresh =
    let (i, e, found, read, free) =
      first_empty-some q.queue 0 (ground (arith, v.width, v.used, room)) in
    let start : 0 + i ≡ i = omega arith in
    let slot = get_elem?-set_self q.queue i (new_entry ops op) (get_elem?-lt q.queue i e read) in
    let m = remove_item_by_value q.entry_map i in
    let d = (ops op).dyn_id in
    let at : lookup d (Dict.insert d i m) ≡ some i = ground (arith, lookup-insert d d i m) in
    (
      added ops q op i,
      i,
      rw (kind, found ∙ ap some start) refl,
      added-IsQueue ops q op i v e read free fresh,
      rw (at, slot) refl,
      refl,
    )

-- An operation has an entry in use.
abbrev pub HasEntry : Ldstq → ℕ → Type 0
HasEntry q op =
    (i : ℕ) × (e : LdstqEntry) × (get_elem? q.queue i ≡ some e) × (e.empty ≡ false) × (e.op ≡ op)

-- The entries in use of `q` are in `q'` at their places.
abbrev pub KeepsEntries : Ldstq → Ldstq → Type 0
KeepsEntries q q' =
    (i : ℕ) (e : LdstqEntry)
    → get_elem? q.queue i ≡ some e
    → e.empty ≡ false
    → get_elem? q'.queue i ≡ some e

-- One more entry, which was not in use, holds the operation; the map finds it under its number, and no
-- other entry changes.
pub record Takes (ops : Ops) (q : Ldstq) (op : ℕ) (q' : Ldstq) : Type 0 where
  pub place : ℕ
  pub found : entry_of ops q' op ≡ some (place, new_entry ops op)
  pub was : (e : LdstqEntry) → get_elem? q.queue place ≡ some e → e.empty ≡ true
  pub others : (j : ℕ) → place ≢ j → get_elem? q'.queue j ≡ get_elem? q.queue j
  pub used : q'.used_size ≡ q.used_size + 1
  pub entry : get_elem? q'.queue place ≡ some (new_entry ops op)

pub Takes-KeepsEntries :
    (ops : Ops) (q : Ldstq) (op : ℕ) (q' : Ldstq) → Takes ops q op q' → KeepsEntries q q'
Takes-KeepsEntries ops q op q' t i e read busy = elim (Bool-cases (t.place == i)) [
  | inl here ↦
      let was : e.empty ≡ true =
        t.was e (ap (get_elem? q.queue) ((==_iff t.place i).0 here) ∙ read) in
      absurd (cc (was, busy))
  | inr away ↦ t.others i (λ h. absurd (ground (arith, h, away))) ∙ read
]

pub add_instruction-Takes :
    (ops : Ops) (q : Ldstq) (op : ℕ)
    → IsQueue ops q
    → if_full q ≡ false
    → (is_load (ops op) || is_store (ops op)) ≡ true
    → ((i : ℕ) (e : LdstqEntry)
        → get_elem? q.queue i ≡ some e
        → e.empty ≡ false
        → e.dyn_id ≢ (ops op).dyn_id)
    → (q' : Ldstq) × (add_instruction ops q op ≡ some q') × IsQueue ops q' × Takes ops q op q'
unfolding add_instruction
add_instruction-Takes ops q op v room kind fresh =
    let (i, e, found, read, free) =
      first_empty-some q.queue 0 (ground (arith, v.width, v.used, room)) in
    let start : 0 + i ≡ i = omega arith in
    let slot = get_elem?-set_self q.queue i (new_entry ops op) (get_elem?-lt q.queue i e read) in
    let m = remove_item_by_value q.entry_map i in
    let d = (ops op).dyn_id in
    let at : lookup d (Dict.insert d i m) ≡ some i = ground (arith, lookup-insert d d i m) in
    (
      added ops q op i,
      rw (kind, found ∙ ap some start) refl,
      added-IsQueue ops q op i v e read free fresh,
      record {
        place = i;
        found = rw (at, slot) refl;
        was = λ d r. ap (λ (x : LdstqEntry). x.empty) (some-injective _ _ (sym r ∙ read)) ∙ free;
        others = λ j ne. get_elem?-set_ne q.queue i j (new_entry ops op) ne;
        used = refl;
        entry = slot;
      },
    )

-- The entries in use have numbers below a bound.
abbrev pub IsBelow : ℕ → Ldstq → Type 0
IsBelow n q =
    (i : ℕ) (e : LdstqEntry) → get_elem? q.queue i ≡ some e → e.empty ≡ false → e.dyn_id < n

added-IsBelow :
    (ops : Ops) (q : Ldstq) (op i n : ℕ)
    → IsBelow n q
    → (ops op).dyn_id < n
    → IsBelow n (added ops q op i)
added-IsBelow ops q op i n h lt j e r b =
    elim (get_elem?-set_cases q.queue i j (new_entry ops op) e r) [
      | inl (same, written) ↦ subst (λ (x : LdstqEntry). x.dyn_id < n) written lt
      | inr (other, kept) ↦ h j e kept b
    ]

-- What `addInstruction` returns.
pub add_instruction-IsBelow :
    (ops : Ops) (q : Ldstq) (op n : ℕ)
    → IsQueue ops q
    → if_full q ≡ false
    → (is_load (ops op) || is_store (ops op)) ≡ true
    → IsBelow n q
    → (ops op).dyn_id < n
    → (q' : Ldstq) → add_instruction ops q op ≡ some q'
    → IsBelow n q'
unfolding add_instruction
add_instruction-IsBelow ops q op n v room kind h lt q' run =
    let (i, e, found, read, free) =
      first_empty-some q.queue 0 (ground (arith, v.width, v.used, room)) in
    let start : 0 + i ≡ i = omega arith in
    let runs : add_instruction ops q op ≡ some (added ops q op i) =
      rw (kind, found ∙ ap some start) refl in
    subst (IsBelow n) (some-injective _ _ (sym runs ∙ run)) (added-IsBelow ops q op i n h lt)
