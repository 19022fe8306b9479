-- ===== src/Window/InOrder.antt =====
-- The retirement loop (`retireInstruction` of sim/src/window.cpp) on the ring.
use mathlib.Core.List.{append-nil, append_assoc}
use cisim.Prelude.{
  ℕ, zero, suc, ◌+◌, ◌<◌, ◌≡◌, ◌⊎◌, refl, sym, ap, subst, ◌∙◌, arith, inl, inr, Bool, true, false,
  ◌==◌, if◌then◌else◌, Bool-cases, List, [], ◌∷◌, ◌++◌, All, length, get_elem?, get_elem?-in, none,
  some,
}
use cisim.Operation.{
  Operation, Ops, Kind, is_store, is_status, finished, commited, update_status, next_status, modify,
}
use cisim.Operation.Modify.{modify_here, modify-holds}
use cisim.LsUnit.{LsUnit}
use cisim.Window.{
  Window, Retired, memory_check, commit_head, after_head, retire_one, retire_up_to,
  retire_instruction, head_finished,
}
use cisim.Window.Ring.{IsRing, wrap, entry}
use cisim.Window.Pop.{SameIds, popped-IsRing}
use cisim.Window.Retire.{Resident, Sourced, should_flush_in-some, commit_by, finished_only}

-- The operations after the one at the head was stamped and committed.
abbrev stamp : ℕ → Operation → Operation
stamp cycle o = record o { retire_cycle = cycle }

abbrev committed : Ops → ℕ → ℕ → Ops
committed ops op cycle = modify (modify ops op (stamp cycle)) op update_status

committed-SameIds : (ops : Ops) (op cycle : ℕ) → SameIds ops (committed ops op cycle)
unfolding update_status
committed-SameIds ops op cycle p =
    let Same = λ (o : Operation). (o.dyn_id ≡ (ops p).dyn_id) × (o.kind ≡ (ops p).kind) in
    modify-holds (modify ops op (stamp cycle)) op update_status Same (λ o h. h) p
      (modify-holds ops op (stamp cycle) Same (λ o h. h) p (refl, refl))

stays-update_status : (o : Operation) → o.status ≡ commited → (update_status o).status ≡ commited
unfolding update_status
stays-update_status o e = ap next_status e

-- Committed operations stay committed.
committed-stays :
    (ops : Ops) (op cycle p : ℕ)
    → (ops p).status ≡ commited
    → (committed ops op cycle p).status ≡ commited
committed-stays ops op cycle p e =
    modify-holds (modify ops op (stamp cycle)) op update_status (λ o. o.status ≡ commited)
      stays-update_status p
      (modify-holds ops op (stamp cycle) (λ o. o.status ≡ commited) (λ o h. h) p e)

committed_head :
    (ops : Ops) (op cycle : ℕ)
    → (ops op).status ≡ finished
    → (committed ops op cycle op).status ≡ commited
unfolding update_status
committed_head ops op cycle fin =
    ap (λ (o : Operation). o.status) (modify_here (modify ops op (stamp cycle)) op update_status)
    ∙ ap next_status (ap (λ (o : Operation). o.status) (modify_here ops op (stamp cycle)) ∙ fin)

-- The result of one round.
abbrev After : Retired → ℕ → List ℕ → Retired → Type 0
After r op xs r' =
    IsRing r'.ops r'.window xs
    × SameIds r.ops r'.ops
    × (r'.counted ≡ r.counted ++ (op ∷ []))
    × ((r'.ops op).status ≡ commited)
    × ((p : ℕ) → (r.ops p).status ≡ commited → (r'.ops p).status ≡ commited)

memory_check-some :
    (u : LsUnit) (ops : Ops) (op : ℕ)
    → Sourced u.ldq.queue
    → (b : Bool) × (memory_check u ops op ≡ some b)
unfolding memory_check
memory_check-some u ops op sourced = elim (Bool-cases (is_store (ops op))) [
  | inl stores ↦
      let (b, checks) = should_flush_in-some ops op u.ldq.queue sourced in
      (b, rw (stores, checks) refl)
  | inr no_store ↦ (false, rw no_store refl)
]

commit_head-some :
    (u : LsUnit) (ops : Ops) (op cycle : ℕ)
    → Resident u (ops op).dyn_id (ops op).kind op
    → is_status (ops op).status finished ≡ true
    → commit_head u (modify ops op (stamp cycle)) op (ops op) ≡ some (committed ops op cycle)
unfolding commit_head
commit_head-some u ops op cycle sits fin =
    let here = modify_here ops op (stamp cycle) in
    commit_by u (modify ops op (stamp cycle)) op (ops op) (ops op).kind refl
      (ap (λ (o : Operation). o.kind) here)
      (subst (λ (o : Operation). Resident u o.dyn_id (ops op).kind op) (sym here) sits)
      (subst (λ (o : Operation). is_status o.status finished ≡ true) (sym here) fin)

retire_one-After :
    (u : LsUnit) (cycle n op : ℕ) (r : Retired) (xs : List ℕ)
    → IsRing r.ops r.window (op ∷ xs)
    → Resident u (r.ops op).dyn_id (r.ops op).kind op
    → Sourced u.ldq.queue
    → is_status (r.ops op).status finished ≡ true
    → (r' : Retired) × (retire_one u cycle n r op ≡ some r') × After r op xs r'
unfolding retire_one
retire_one-After u cycle n op r xs v sits sourced fin =
    let (b, checks) = memory_check-some u r.ops op sourced in
    let ids = committed-SameIds r.ops op cycle in
    (
      after_head r n op (committed r.ops op cycle),
      rw (checks, commit_head-some u r.ops op cycle sits fin) refl,
      (
        popped-IsRing r.ops (committed r.ops op cycle) r.window op xs _ _ _ _ v ids,
        ids,
        refl,
        committed_head r.ops op cycle (finished_only (r.ops op).status fin),
        committed-stays r.ops op cycle,
      ),
    )

-- Every load and store of the list sits in its queue.
abbrev pub Residents : LsUnit → Ops → List ℕ → Type 0
Residents u ops xs = All (λ p. Resident u (ops p).dyn_id (ops p).kind p) xs

Residents-SameIds :
    (u : LsUnit) (ops ops' : Ops) (xs : List ℕ)
    → SameIds ops ops'
    → Residents u ops xs
    → Residents u ops' xs
Residents-SameIds u ops ops' [] same h = tt
Residents-SameIds u ops ops' (p ∷ xs) same (sits, h) = (
  subst (λ (k : Kind). Resident u (ops' p).dyn_id k p) (sym (same p).1)
      (subst (λ (d : ℕ). Resident u d (ops p).kind p) (sym (same p).0) sits),
  Residents-SameIds u ops ops' xs same h,
)

-- The oldest operation of the list, if any, is not finished.
abbrev pub Blocked : Ops → List ℕ → Type 0
Blocked ops [] = Unit
Blocked ops (p ∷ xs) = is_status (ops p).status finished ≡ false

head_none : (ops : Ops) (w : Window) → IsRing ops w [] → head_finished ops w ≡ some none
head_none ops w v =
    let start : wrap w.rob_size (w.rob_head + 0) ≡ w.rob_head = ground (arith, v.head_in) in
    let (e, read) = get_elem?-in w.rob w.rob_head (omega (arith, v.head_in, v.width)) in
    let empty : e.empty ≡ true =
      v.free 0 e (omega (arith, v.used)) (omega (arith, v.head_in))
        (ap (get_elem? w.rob) start ∙ read) in
    rw (read, empty) refl

head_read :
    (ops : Ops) (w : Window) (op : ℕ) (xs : List ℕ)
    → IsRing ops w (op ∷ xs)
    → get_elem? w.rob w.rob_head ≡ some (entry op)
head_read ops w op xs v =
    let start : w.rob_head ≡ wrap w.rob_size (w.rob_head + 0) = ground (arith, v.head_in) in
    ap (get_elem? w.rob) start ∙ v.taken 0 op refl

-- What a retirement of at most `left` operations promises.
abbrev pub Retires : ℕ → List ℕ → Retired → Retired → Type 0
Retires left xs r r' =
    (done : List ℕ) × (rest : List ℕ) × (xs ≡ done ++ rest)
    × (r'.counted ≡ r.counted ++ done)
    × IsRing r'.ops r'.window rest
    × All (λ p. (r'.ops p).status ≡ commited) done
    × ((length done ≡ left) ⊎ ((length done < left) × Blocked r'.ops rest))

retire_up_to-Retires :
    (u : LsUnit) (cycle left n : ℕ) (r : Retired) (xs : List ℕ)
    → IsRing r.ops r.window xs
    → Residents u r.ops xs
    → Sourced u.ldq.queue
    → (r' : Retired) × (retire_up_to u cycle left n r ≡ some r')
      × Retires left xs r r'
      × ((p : ℕ) → (r.ops p).status ≡ commited → (r'.ops p).status ≡ commited)
unfolding retire_up_to
retire_up_to-Retires u cycle zero n r xs v h sourced =
    (r, refl, ([], xs, refl, sym (append-nil r.counted), v, tt, inl refl), (λ p e. e))
retire_up_to-Retires u cycle (suc left) n r [] v h sourced = (
  r,
  rw (retire_up_to, head_none r.ops r.window v) refl,
  ([], [], refl, sym (append-nil r.counted), v, tt, inr (omega arith, tt)),
  (λ p e. e),
)
retire_up_to-Retires u cycle (suc left) n r (op ∷ xs) v (sits, h) sourced =
    let read = head_read r.ops r.window op xs v in
    elim (Bool-cases (is_status (r.ops op).status finished)) [
      | inr busy ↦ (
        r,
        rw (retire_up_to, read, busy) refl,
        ([], op ∷ xs, refl, sym (append-nil r.counted), v, tt, inr (omega arith, busy)),
        (λ p e. e),
      )
      | inl fin ↦
          let (s, one, (ring, ids, counted, done_op, stays)) =
            retire_one-After u cycle n op r xs v sits sourced fin in
          let (r', more, (done, rest, split, counts, ring', all, stop), stays') =
            retire_up_to-Retires u cycle left (suc n) s xs ring
              (Residents-SameIds u r.ops s.ops xs ids h) sourced in
          (
            r',
            rw (retire_up_to, read, fin, one) more,
            (
              op ∷ done,
              rest,
              ap (◌∷◌ op) split,
              counts ∙ ap (λ c. c ++ done) counted ∙ append_assoc r.counted (op ∷ []) done,
              ring',
              (stays' op done_op, all),
              elim stop [
                | inl e ↦ inl (ap suc e)
                | inr (lt, blocked) ↦ inr (omega (arith, lt), blocked)
              ],
            ),
            (λ p e. stays' p (stays p e)),
          )
    ]

-- Where the loads and stores in flight sit in entries in use of their queues, and each load that was
-- forwarded its data has the store that it came from, retirement fails no assertion and is in order: it takes a first part of the operations in flight, counts these in order, commits each of
-- them and leaves the others as the buffer. It stops at `retireSize` operations, or one where that
-- is 0, or before at the end or at an operation that is not finished.
pub retire_instruction-Retires :
    (u : LsUnit) (cycle : ℕ) (r : Retired) (xs : List ℕ)
    → IsRing r.ops r.window xs
    → Residents u r.ops xs
    → Sourced u.ldq.queue
    → (r' : Retired) × (retire_instruction u cycle r ≡ some r')
      × Retires (if r.window.retire_size == 0 then 1 else r.window.retire_size) xs r r'
unfolding retire_instruction
retire_instruction-Retires u cycle r xs v h sourced =
    let (r', run, retires, stays) =
      retire_up_to-Retires u cycle (if r.window.retire_size == 0 then 1 else r.window.retire_size) 0
        r xs v h sourced in
    (r', run, retires)
