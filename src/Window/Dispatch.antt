-- ===== src/Window/Dispatch.antt =====
-- Dispatch into the reorder buffer (`dispatch` of sim/src/window.cpp) on the ring.
use mathlib.Core.List.{append-nil, append_assoc}
use cisim.Prelude.{
  ℕ, zero, suc, ◌+◌, ◌<◌, ◌≡◌, ◌≢◌, ◌⊎◌, refl, sym, ap, subst, ◌∙◌, arith, inl, inr, true, false,
  ◌==◌, Bool-cases, List, [], ◌∷◌, ◌++◌, All, length, get_elem?-in, none, some,
}
use cisim.Prelude.Dict.{lookup}
use cisim.Prelude.DictOrder.{lookup-remapped_none}
use cisim.Operation.{Ops}
use cisim.Window.{
  Window, can_dispatch, increment_issue_queue_used, add_instruction, if_rob_full, dispatch_up_to,
  dispatch,
}
use cisim.Window.Ring.{IsRing, full-IsRing, pushed, pushed-IsRing, tail_in}

-- The operations of a queue have numbers that differ and are not mapped.
abbrev pub AreNew : Ops → Window → List ℕ → Type 0
AreNew ops w [] = Unit
AreNew ops w (p ∷ queue) =
    (lookup (ops p).dyn_id w.op_entry_map ≡ none)
    × All (λ q. (ops q).dyn_id ≢ (ops p).dyn_id) queue
    × AreNew ops w queue

pub counted-IsRing :
    (ops : Ops) (w : Window) (xs : List ℕ)
    → IsRing ops w xs
    → IsRing ops (increment_issue_queue_used w) xs
counted-IsRing ops w xs v = record {
  width = v.width;
  head_in = v.head_in;
  used = v.used;
  fits = v.fits;
  tail_at = v.tail_at;
  taken = v.taken;
  free = v.free;
  sorted = v.sorted;
  one_key = v.one_key;
  mapped = v.mapped;
}

-- The window after the dispatch of one operation.
abbrev pub moved : (ops : Ops) (w : Window) (xs : List ℕ) → ℕ → IsRing ops w xs → Window
moved ops w xs op v = pushed ops (increment_issue_queue_used w) xs op (counted-IsRing ops w xs v)

moved-AreNew :
    (ops : Ops) (w : Window) (xs : List ℕ) (op : ℕ) (v : IsRing ops w xs) (queue : List ℕ)
    → All (λ q. (ops q).dyn_id ≢ (ops op).dyn_id) queue
    → AreNew ops w queue
    → AreNew ops (moved ops w xs op v) queue
moved-AreNew ops w xs op v [] other fresh = tt
moved-AreNew ops w xs op v (q ∷ queue) (ne, other) (absent, apart, fresh) = (
  lookup-remapped_none w.op_entry_map (ops op).dyn_id w.rob_tail v.sorted (ops q).dyn_id ne absent,
  apart,
  moved-AreNew ops w xs op v queue other fresh,
)

pub add_instruction-moved :
    (ops : Ops) (w : Window) (xs : List ℕ) (op : ℕ) (v : IsRing ops w xs)
    → length xs < w.rob_size
    → lookup (ops op).dyn_id w.op_entry_map ≡ none
    → add_instruction ops (increment_issue_queue_used w) op ≡ some (moved ops w xs op v)
unfolding add_instruction
add_instruction-moved ops w xs op v room fresh =
    let (e, read) = get_elem?-in w.rob w.rob_tail (tail_in ops w xs op v room) in
    rw (fresh, read) refl

-- What the dispatch of at most `n` operations promises: it moves a first part of the queue into the
-- buffer and stops after `n`, or where the queue is empty, the issue queue has no room or the buffer
-- is full.
abbrev pub Dispatches :
    Ops → ℕ → List ℕ → List ℕ → List ℕ → Window → Window → List ℕ → List ℕ → Type 0
Dispatches ops n xs queue issued w w' rest issued' =
    (first : List ℕ) × (queue ≡ first ++ rest)
    × (issued' ≡ issued ++ first)
    × IsRing ops w' (xs ++ first)
    × (w'.issue_queue_used ≡ w.issue_queue_used + length first)
    × ((length first ≡ n)
        ⊎ ((length first < n)
            × ((rest ≡ []) ⊎ ((can_dispatch w' ≡ false) ⊎ (if_rob_full w' ≡ some true)))))

-- A round that moves nothing.
stuck :
    (ops : Ops) (n : ℕ) (w : Window) (xs queue issued : List ℕ)
    → IsRing ops w xs
    → ((queue ≡ []) ⊎ ((can_dispatch w ≡ false) ⊎ (if_rob_full w ≡ some true)))
    → Dispatches ops (suc n) xs queue issued w w queue issued
stuck ops n w xs queue issued v why = (
  [],
  refl,
  sym (append-nil issued),
  subst (IsRing ops w) (sym (append-nil xs)) v,
  omega arith,
  inr (omega arith, why),
)

dispatch_up_to-Dispatches :
    (ops : Ops) (n : ℕ) (w : Window) (xs queue issued : List ℕ)
    → IsRing ops w xs
    → AreNew ops w queue
    → (w' : Window) × (rest : List ℕ) × (issued' : List ℕ) × (dispatch_up_to ops n w queue issued
        ≡ some (w', rest, issued'))
      × Dispatches ops n xs queue issued w w' rest issued'
unfolding dispatch_up_to
dispatch_up_to-Dispatches ops zero w xs queue issued v fresh = (
  w,
  queue,
  issued,
  refl,
  (
    [],
    refl,
    sym (append-nil issued),
    subst (IsRing ops w) (sym (append-nil xs)) v,
    omega arith,
    inl refl,
  ),
)
dispatch_up_to-Dispatches ops (suc n) w xs [] issued v fresh =
    (w, [], issued, refl, stuck ops n w xs [] issued v (inl refl))
dispatch_up_to-Dispatches ops (suc n) w xs (op ∷ queue) issued v (absent, apart, fresh) =
    elim (Bool-cases (can_dispatch w)) [
      | inr shut ↦ (
        w,
        op ∷ queue,
        issued,
        rw (dispatch_up_to, shut) refl,
        stuck ops n w xs (op ∷ queue) issued v (inr (inl shut)),
      )
      | inl open_queue ↦ elim (Bool-cases (length xs == w.rob_size)) [
        | inl full ↦
            let filled : if_rob_full w ≡ some true = full-IsRing ops w xs v ∙ ap some full in
            (
              w,
              op ∷ queue,
              issued,
              rw (dispatch_up_to, open_queue, filled) refl,
              stuck ops n w xs (op ∷ queue) issued v (inr (inr filled)),
            )
        | inr room ↦
            let space : if_rob_full w ≡ some false = full-IsRing ops w xs v ∙ ap some room in
            let less : length xs < w.rob_size = ground (arith, room, v.used, v.fits) in
            let next = moved ops w xs op v in
            let ring =
              pushed-IsRing ops (increment_issue_queue_used w) xs op (counted-IsRing ops w xs v)
                less absent in
            let (w', rest, issued', run, (first, split, all_issued, ring', used, stop)) =
              dispatch_up_to-Dispatches ops n next (xs ++ (op ∷ [])) queue (issued ++ (op ∷ []))
                ring (moved-AreNew ops w xs op v queue apart fresh) in
            (
              w',
              rest,
              issued',
              rw
                  (
                    dispatch_up_to,
                    open_queue,
                    space,
                    add_instruction-moved ops w xs op v less absent,
                  )
                  run,
              (
                op ∷ first,
                ap (◌∷◌ op) split,
                all_issued ∙ append_assoc issued (op ∷ []) first,
                subst (IsRing ops w') (append_assoc xs (op ∷ []) first) ring',
                omega (arith, used),
                elim stop [ inl e ↦ inl (ap suc e) | inr (lt, why) ↦ inr (omega (arith, lt), why) ],
              ),
            )
      ]
    ]

-- On a ring, with a queue of operations whose numbers differ and are not mapped, dispatch does not
-- fault. It moves at most as many operations as the window size from the front of the queue to the
-- end of the ring, in order, counts each in the issue queue, and stops before only where the queue is
-- empty, the issue queue has no room or the buffer is full.
pub dispatch-Dispatches :
    (ops : Ops) (w : Window) (xs queue : List ℕ)
    → IsRing ops w xs
    → AreNew ops w queue
    → (w' : Window) × (rest : List ℕ) × (issued : List ℕ) × (dispatch ops w queue
        ≡ some (w', rest, issued))
      × Dispatches ops w.window_size xs queue [] w w' rest issued
unfolding dispatch
dispatch-Dispatches ops w xs queue v fresh =
    dispatch_up_to-Dispatches ops w.window_size w xs queue [] v fresh
