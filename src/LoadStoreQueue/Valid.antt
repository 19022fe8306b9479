-- ===== src/LoadStoreQueue/Valid.antt =====
-- The invariant of a load or store queue (`LDSTQ` of sim/include/lsu.h) and the operations on it.
use cisim.Prelude.{
  ℕ, zero, suc, ◌+◌, ◌-◌, ◌≤◌, ◌<◌, ◌≡◌, refl, sym, ap, ◌∙◌, arith, inl, inr, true, false,
  Bool-cases, ltb, if◌then◌else◌, List, [], ◌∷◌, length, length-set, length-replicate, get_elem?,
  get_elem?-set_self, get_elem?-set_cases, get_elem?-lt, set, replicate, some,
}
use mathlib.Core.Option.{some-injective}
use cisim.Prelude.Dict.{lookup}
use cisim.Prelude.DictSorted.{IsSorted}
use cisim.Operation.{Ops}
use cisim.LoadStoreQueue.{LdstqEntry, Ldstq, empty_entry, init, first_empty, free_entry}

-- How many entries are in use.
abbrev pub in_use : LdstqEntry → ℕ
in_use e = if e.empty then 0 else 1

abbrev pub live : List LdstqEntry → ℕ
live [] = 0
live (e ∷ es) = in_use e + live es

-- `usedSize` counts the entries in use; each of them is found through the map under the number of
-- its operation; no two numbers are mapped to one entry.
pub record IsQueue (ops : Ops) (q : Ldstq) : Type 0 where
  pub width : length q.queue ≡ q.size
  pub used : live q.queue ≡ q.used_size
  pub sorted : IsSorted q.entry_map
  pub in_range : (k i : ℕ) → lookup k q.entry_map ≡ some i → i < q.size
  pub one_key : (k j i : ℕ) → lookup k q.entry_map ≡ some i → lookup j q.entry_map ≡ some i → k ≡ j
  pub mapped :
      (i : ℕ) (e : LdstqEntry)
      → get_elem? q.queue i ≡ some e
      → e.empty ≡ false
      → lookup e.dyn_id q.entry_map ≡ some i
  pub own :
      (i : ℕ) (e : LdstqEntry)
      → get_elem? q.queue i ≡ some e
      → e.empty ≡ false
      → (ops e.op).dyn_id ≡ e.dyn_id

live-replicate : (n : ℕ) → live (replicate n empty_entry) ≡ 0
live-replicate zero = refl
live-replicate (suc n) = omega (arith, live-replicate n)

pub replicate-empty :
    (n i : ℕ) (e : LdstqEntry) → get_elem? (replicate n empty_entry) i ≡ some e → e.empty ≡ true
replicate-empty zero i e h = absurd (cc)
replicate-empty (suc n) zero e h = sym (ap (λ (x : LdstqEntry). x.empty) (some-injective _ _ h))
replicate-empty (suc n) (suc i) e h = replicate-empty n i e h

-- A new queue.
pub init-IsQueue : (ops : Ops) (size : ℕ) → IsQueue ops (init size)
unfolding init lookup
init-IsQueue ops size = record {
  width = length-replicate size empty_entry;
  used = live-replicate size;
  sorted = tt;
  in_range = λ k i e. absurd (cc);
  one_key = λ k j i e e'. absurd (cc);
  mapped = λ i e r b. absurd (ground (arith, b, replicate-empty size i e r));
  own = λ i e r b. absurd (ground (arith, b, replicate-empty size i e r));
}

live-le : (es : List LdstqEntry) → live es ≤ length es
live-le [] = omega arith
live-le (e ∷ es) = ground (arith, live-le es)

-- A free entry is found where not all entries are in use.
pub first_empty-some :
    (es : List LdstqEntry) (i : ℕ)
    → live es < length es
    → (k : ℕ) × (e : LdstqEntry) × (first_empty es i ≡ some (i + k))
      × (get_elem? es k ≡ some e)
      × (e.empty ≡ true)
unfolding first_empty
first_empty-some [] i h = absurd (omega (arith, h))
first_empty-some (e ∷ es) i h = elim (Bool-cases e.empty) [
  | inl free ↦ (0, e, rw free (ap some (omega arith)), refl, free)
  | inr busy ↦
      let (k, d, found, read, free) = first_empty-some es (suc i) (ground (arith, h, busy)) in
      (suc k, d, rw busy (found ∙ ap some (omega arith)), read, free)
]

pub live-set :
    (es : List LdstqEntry) (k : ℕ) (e d : LdstqEntry)
    → get_elem? es k ≡ some e
    → live (set es k d) + in_use e ≡ live es + in_use d
live-set [] k e d h = absurd (cc)
live-set (x ∷ es) zero e d h = let same : x ≡ e = some-injective _ _ h in rw same (omega arith)
live-set (x ∷ es) (suc k) e d h = omega (arith, live-set es k e d h)

-- An entry in use that is read after a write of one that is not in use was there before.
pub read_kept :
    (es : List LdstqEntry) (i j : ℕ) (d : LdstqEntry)
    → get_elem? (set es i empty_entry) j ≡ some d
    → d.empty ≡ false
    → get_elem? es j ≡ some d
read_kept es i j d r b = elim (get_elem?-set_cases es i j empty_entry d r) [
  | inl (same, e) ↦ absurd (ground (arith, ap (λ (x : LdstqEntry). x.empty) e, b))
  | inr (other, e) ↦ e
]

-- A queue with one entry overwritten by an empty one.
pub emptied-IsQueue :
    (ops : Ops) (q : Ldstq) (i : ℕ) (e : LdstqEntry)
    → IsQueue ops q
    → get_elem? q.queue i ≡ some e
    → e.empty ≡ false
    → IsQueue ops (record q { queue = set q.queue i empty_entry; used_size = q.used_size - 1 })
emptied-IsQueue ops q i e v read busy = record {
  width = length-set q.queue i empty_entry ∙ v.width;
  used = ground (arith, v.used, live-set q.queue i e empty_entry read, busy);
  sorted = v.sorted;
  in_range = v.in_range;
  one_key = v.one_key;
  mapped = λ j d r b. v.mapped j d (read_kept q.queue i j d r b) b;
  own = λ j d r b. v.own j d (read_kept q.queue i j d r b) b;
}

-- The queue with an entry emptied.
abbrev pub emptied : Ldstq → ℕ → Ldstq
emptied q i = record q { queue = set q.queue i empty_entry; used_size = q.used_size - 1 }

module _ (ops : Ops) (q : Ldstq) (op i : ℕ) (e : LdstqEntry) (v : IsQueue ops q) where
  busy_positive : get_elem? q.queue i ≡ some e → e.empty ≡ false → 0 < q.used_size
  busy_positive read busy = ground (arith, v.used, live-set q.queue i e empty_entry read, busy)

  pub free_entry-emptied :
      get_elem? q.queue i ≡ some e
      → e.empty ≡ false
      → e.dyn_id ≡ (ops op).dyn_id
      → free_entry ops q op ≡ some (emptied q i)
  unfolding free_entry
  free_entry-emptied read busy same =
      let at : lookup (ops op).dyn_id q.entry_map ≡ some i =
        ap (λ k. lookup k q.entry_map) (sym same) ∙ v.mapped i e read busy in
      let test : ltb 0 q.used_size ≡ true = ground (arith, busy_positive read busy) in
      rw (at, read, test) refl

-- An operation that has an entry in use can free it: `usedSize` was positive and goes down by one,
-- the entry is empty, and the queue stays well formed.
pub free_entry-IsQueue :
    (ops : Ops) (q : Ldstq) (op i : ℕ) (e : LdstqEntry)
    → IsQueue ops q
    → get_elem? q.queue i ≡ some e
    → e.empty ≡ false
    → e.dyn_id ≡ (ops op).dyn_id
    → (q' : Ldstq) × (free_entry ops q op ≡ some q')
      × IsQueue ops q'
      × (q'.used_size + 1 ≡ q.used_size)
      × (get_elem? q'.queue i ≡ some empty_entry)
free_entry-IsQueue ops q op i e v read busy same = (
  emptied q i,
  free_entry-emptied ops q op i e v read busy same,
  emptied-IsQueue ops q i e v read busy,
  omega (arith, busy_positive ops q op i e v read busy),
  get_elem?-set_self q.queue i empty_entry (get_elem?-lt q.queue i e read),
)
