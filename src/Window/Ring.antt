-- ===== src/Window/Ring.antt =====
-- The reorder buffer as a ring (`Window` of sim/src/window.cpp): the operations in flight, the oldest
-- first.
use cisim.Prelude.{
  ℕ, zero, suc, ◌+◌, ◌-◌, ◌*◌, ◌%◌, ◌≤◌, ◌<◌, ◌≡◌, ◌⊎◌, refl, sym, ap, subst, ◌∙◌, arith, inl, inr,
  true, false, ltb, ◌==◌, if◌then◌else◌, Bool-cases, List, [], ◌∷◌, ◌++◌, length, length-append,
  length-set, length-replicate, replicate, get_elem?, get_elem?-in, get_elem?-set_self,
  get_elem?-set_ne, set, none, some,
}
use mathlib.Core.Option.{some-injective}
use native.Mathlib.Nat.{mod-eq_of_lt, add-mul-mod_self_left}
use cisim.Prelude.Dict.{lookup, lookup-insert}
use cisim.Prelude.Dict
use cisim.Prelude.DictSorted.{IsSorted, insert-IsSorted}
use cisim.Prelude.DictOrder.{
  remove-IsSorted, remove_item_by_value, remapped-one_key, lookup-remapped,
}
use cisim.Operation.{Ops}
use cisim.Window.{RobEntry, empty_entry, Window, init, add_instruction, if_rob_full}

-- An index that has gone at most once around a ring of `size`.
abbrev pub wrap : ℕ → ℕ → ℕ
wrap size x = if ltb x size then x else x - size

pub wrap_lem : (size x : ℕ) → x < size + size → x % size ≡ wrap size x
wrap_lem size x h = elim (Bool-cases (ltb x size)) [
  | inl e ↦ rw e (mod-eq_of_lt (ground (arith, e)))
  | inr e ↦
      let once : x ≡ x - size + size * 1 = ground (arith, e) in
      let small : x - size < size = ground (arith, e, h) in
      rw e (ap (λ y. y % size) once ∙ add-mul-mod_self_left (x - size) size 1 ∙ mod-eq_of_lt small)
]

abbrev pub entry : ℕ → RobEntry
entry op = record { op = op; empty = false }

-- `xs` are the operations in the reorder buffer, the oldest first.
pub record IsRing (ops : Ops) (w : Window) (xs : List ℕ) : Type 0 where
  pub width : length w.rob ≡ w.rob_size
  pub head_in : w.rob_head < w.rob_size
  pub used : length xs ≡ w.rob_used
  pub fits : w.rob_used ≤ w.rob_size
  pub tail_at : w.rob_tail ≡ wrap w.rob_size (w.rob_head + w.rob_used)
  pub taken :
      (k op : ℕ)
      → get_elem? xs k ≡ some op
      → get_elem? w.rob (wrap w.rob_size (w.rob_head + k)) ≡ some (entry op)
  pub free :
      (k : ℕ) (e : RobEntry)
      → w.rob_used ≤ k
      → k < w.rob_size
      → get_elem? w.rob (wrap w.rob_size (w.rob_head + k)) ≡ some e
      → e.empty ≡ true
  pub sorted : IsSorted w.op_entry_map
  pub one_key :
      (k j i : ℕ) → lookup k w.op_entry_map ≡ some i → lookup j w.op_entry_map ≡ some i → k ≡ j
  pub mapped :
      (k op : ℕ)
      → get_elem? xs k ≡ some op
      → lookup (ops op).dyn_id w.op_entry_map ≡ some (wrap w.rob_size (w.rob_head + k))

get-append :
    {A : Type 0} (xs : List A) (a b : A) (k : ℕ)
    → get_elem? (xs ++ (a ∷ [])) k ≡ some b
    → ((get_elem? xs k ≡ some b) × (k < length xs)) ⊎ ((k ≡ length xs) × (a ≡ b))
get-append [] a b zero e = inr (refl, some-injective _ _ e)
get-append [] a b (suc k) e = absurd (cc)
get-append (x ∷ xs) a b zero e = inl (e, omega arith)
get-append (x ∷ xs) a b (suc k) e = elim (get-append xs a b k e) [
  | inl (old, lt) ↦ inl (old, omega (arith, lt))
  | inr (at, new) ↦ inr (ap suc at, new)
]

get-replicate :
    (n i : ℕ) (e : RobEntry) → get_elem? (replicate n empty_entry) i ≡ some e → e.empty ≡ true
get-replicate zero i e h = absurd (cc)
get-replicate (suc n) zero e h = sym (ap (λ (x : RobEntry). x.empty) (some-injective _ _ h))
get-replicate (suc n) (suc i) e h = get-replicate n i e h

-- A new window with at least one entry in the buffer.
pub init-IsRing :
    (ops : Ops) (window_size retire_size rob_size issue_queue_size : ℕ)
    → 0 < rob_size
    → IsRing ops (init window_size retire_size rob_size issue_queue_size) []
unfolding init lookup
init-IsRing ops window_size retire_size rob_size issue_queue_size h = record {
  width = length-replicate rob_size empty_entry;
  head_in = h;
  used = refl;
  fits = omega arith;
  tail_at = ground (arith, h);
  taken = λ k op e. absurd (cc);
  free = λ k e le lt read. get-replicate rob_size (wrap rob_size (0 + k)) e read;
  sorted = tt;
  one_key = λ k j i e e'. absurd (cc);
  mapped = λ k op e. absurd (cc);
}

-- The buffer is full exactly if it holds as many operations as it has entries.
pub full-IsRing :
    (ops : Ops) (w : Window) (xs : List ℕ)
    → IsRing ops w xs
    → if_rob_full w ≡ some (length xs == w.rob_size)
full-IsRing ops w xs v = elim (Bool-cases (length xs == w.rob_size)) [
  | inl full ↦
      let (op, first) = get_elem?-in xs 0 (ground (arith, full, v.head_in)) in
      let at : w.rob_tail ≡ wrap w.rob_size (w.rob_head + 0) =
        ground (arith, v.tail_at, v.used, full, v.head_in) in
      rw (full, at, v.taken 0 op first) refl
  | inr room ↦
      let less : w.rob_used < w.rob_size = ground (arith, room, v.used, v.fits) in
      let (e, read) =
        get_elem?-in w.rob w.rob_tail (ground (arith, v.tail_at, less, v.head_in, v.width)) in
      let empty : e.empty ≡ true =
        v.free w.rob_used e (omega arith) less
          (subst (λ i. get_elem? w.rob i ≡ some e) v.tail_at read) in
      rw (room, read, empty) refl
]

module _ (ops : Ops) (w : Window) (xs : List ℕ) (op : ℕ) (v : IsRing ops w xs) where
  -- The window with the operation at the tail.
  abbrev pub pushed : Window
  pushed = record w {
    rob = set w.rob w.rob_tail (entry op);
    op_entry_map =
        Dict.insert (ops op).dyn_id w.rob_tail (remove_item_by_value w.op_entry_map w.rob_tail);
    rob_tail = (w.rob_tail + 1) % w.rob_size;
    rob_used = w.rob_used + 1;
  }

  pub tail_in : length xs < w.rob_size → w.rob_tail < length w.rob
  tail_in room = ground (arith, v.tail_at, v.head_in, v.used, room, v.width)

  pushed-taken :
      length xs < w.rob_size
      → (k p : ℕ) → get_elem? (xs ++ (op ∷ [])) k ≡ some p
      → get_elem? pushed.rob (wrap w.rob_size (w.rob_head + k)) ≡ some (entry p)
  pushed-taken room k p e = elim (get-append xs op p k e) [
    | inl (old, lt) ↦
        get_elem?-set_ne w.rob w.rob_tail (wrap w.rob_size (w.rob_head + k)) (entry op)
          (ground (arith, v.tail_at, v.used, v.head_in, room, lt))
        ∙ v.taken k p old
    | inr (at, new) ↦
        let here : wrap w.rob_size (w.rob_head + k) ≡ w.rob_tail =
          ground (arith, v.tail_at, v.used, at) in
        ap (get_elem? pushed.rob) here
        ∙ get_elem?-set_self w.rob w.rob_tail (entry op) (tail_in room)
        ∙ ap (λ x. some (entry x)) new
  ]

  pushed-mapped :
      length xs < w.rob_size
      → lookup (ops op).dyn_id w.op_entry_map ≡ none
      → (k p : ℕ) → get_elem? (xs ++ (op ∷ [])) k ≡ some p
      → lookup (ops p).dyn_id pushed.op_entry_map ≡ some (wrap w.rob_size (w.rob_head + k))
  pushed-mapped room fresh k p e = elim (get-append xs op p k e) [
    | inl (old, lt) ↦
        lookup-remapped w.op_entry_map (ops op).dyn_id w.rob_tail (ops p).dyn_id
          (wrap w.rob_size (w.rob_head + k))
          (λ same.
            absurd (
              ground
                (arith, fresh, v.mapped k p old, ap (λ (d : ℕ). lookup d w.op_entry_map) same)))
          (ground (arith, v.tail_at, v.used, v.head_in, room, lt)) (v.mapped k p old)
    | inr (at, new) ↦
        let here : w.rob_tail ≡ wrap w.rob_size (w.rob_head + k) =
          ground (arith, v.tail_at, v.used, at) in
        let d = (ops op).dyn_id in
        let found : lookup d pushed.op_entry_map ≡ some w.rob_tail =
          ground (
            arith,
            lookup-insert d d w.rob_tail (remove_item_by_value w.op_entry_map w.rob_tail),
          ) in
        ap (λ (q : ℕ). lookup (ops q).dyn_id pushed.op_entry_map) (sym new) ∙ found ∙ ap some here
  ]

  pushed-free :
      length xs < w.rob_size
      → (k : ℕ) (e : RobEntry) → w.rob_used + 1 ≤ k
      → k < w.rob_size
      → get_elem? pushed.rob (wrap w.rob_size (w.rob_head + k)) ≡ some e
      → e.empty ≡ true
  pushed-free room k e le lt read = v.free k e (omega (arith, le)) lt (
      sym (
        get_elem?-set_ne w.rob w.rob_tail (wrap w.rob_size (w.rob_head + k)) (entry op)
          (ground (arith, v.tail_at, v.used, v.head_in, room, le, lt)))
      ∙ read)

  pub pushed-IsRing :
      length xs < w.rob_size
      → lookup (ops op).dyn_id w.op_entry_map ≡ none
      → IsRing ops pushed (xs ++ (op ∷ []))
  pushed-IsRing room fresh = record {
    width = length-set w.rob w.rob_tail (entry op) ∙ v.width;
    head_in = v.head_in;
    used = omega (arith, length-append xs (op ∷ []), v.used);
    fits = omega (arith, v.used, room);
    tail_at =
        wrap_lem w.rob_size (w.rob_tail + 1) (omega (arith, tail_in room, v.width))
        ∙ ground (arith, v.tail_at, v.used, v.head_in, room);
    taken = pushed-taken room;
    free = pushed-free room;
    sorted =
        insert-IsSorted (ops op).dyn_id w.rob_tail (remove_item_by_value w.op_entry_map w.rob_tail)
          (remove-IsSorted w.rob_tail w.op_entry_map v.sorted);
    one_key = remapped-one_key w.op_entry_map (ops op).dyn_id w.rob_tail v.sorted v.one_key;
    mapped = pushed-mapped room fresh;
  }

-- On a buffer that holds fewer operations than it has entries, an operation whose number is not
-- mapped is added without a fault, as the youngest.
pub add_instruction-IsRing :
    (ops : Ops) (w : Window) (xs : List ℕ) (op : ℕ)
    → IsRing ops w xs
    → if_rob_full w ≡ some false
    → lookup (ops op).dyn_id w.op_entry_map ≡ none
    → (w' : Window) × (add_instruction ops w op ≡ some w') × IsRing ops w' (xs ++ (op ∷ []))
unfolding add_instruction
add_instruction-IsRing ops w xs op v not_full fresh =
    let room : length xs < w.rob_size =
      ground (arith, not_full, full-IsRing ops w xs v, v.used, v.fits) in
    let (e, read) = get_elem?-in w.rob w.rob_tail (tail_in ops w xs op v room) in
    (pushed ops w xs op v, rw (fresh, read) refl, pushed-IsRing ops w xs op v room fresh)
