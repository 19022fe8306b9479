-- ===== src/LsUnit/Working.antt =====
-- The invariant of the load and store unit (sim/src/lsu.cpp) and the steps that its cycle is made of.
use cisim.Prelude.{
  ℕ, ◌<◌, ◌≡◌, refl, sym, ap, subst, ◌∙◌, arith, inl, inr, true, false, List, [], ◌∷◌, All,
  length-set, get_elem?, get_elem?-set_cases, set, some,
}
use cisim.Prelude.Dict.{lookup}
use cisim.Operation.{Operation, Ops, sleep, set_finish, modify}
use cisim.Operation.Modify.{modify-holds}
use cisim.LoadStoreQueue.{LdstqEntry, Ldstq, complete_instruction}
use cisim.LoadStoreQueue.Valid.{IsQueue, live-set}
use cisim.LsUnit.{LsUnit, do_forward_data}

-- A load that waits for a store: it is asleep and has its entry.
abbrev pub Waits : Ops → Ldstq → ℕ → Type 0
Waits ops ldq p =
    ((ops p).status ≡ sleep)
    × (i : ℕ) × (e : LdstqEntry) × (get_elem? ldq.queue i ≡ some e)
    × (e.empty ≡ false)
    × (e.op ≡ p)

-- Both queues are well formed, stores have positive numbers, and what stands in the forward list of a
-- store waits.
pub record IsWorking (ops : Ops) (u : LsUnit) : Type 0 where
  pub loads : IsQueue ops u.ldq
  pub stores : IsQueue ops u.stq
  pub positive :
      (j : ℕ) (d : LdstqEntry)
      → get_elem? u.stq.queue j ≡ some d
      → d.empty ≡ false
      → 0 < (ops d.op).dyn_id
  pub waiting :
      (j : ℕ) (d : LdstqEntry)
      → get_elem? u.stq.queue j ≡ some d
      → d.empty ≡ false
      → All (Waits ops u.ldq) d.forward_list

-- The numbers of the operations are the same, and those asleep still are.
abbrev pub Keeps : Ops → Ops → Type 0
Keeps ops ops' =
    (p : ℕ)
    → ((ops' p).dyn_id ≡ (ops p).dyn_id) × ((ops p).status ≡ sleep → (ops' p).status ≡ sleep)

pub modify-Keeps :
    (ops : Ops) (op : ℕ) (f : Operation → Operation)
    → ((o : Operation) → (f o).dyn_id ≡ o.dyn_id)
    → ((o : Operation) → o.status ≡ sleep → (f o).status ≡ sleep)
    → Keeps ops (modify ops op f)
modify-Keeps ops op f ids rests p = (
  modify-holds ops op f (λ o. o.dyn_id ≡ (ops p).dyn_id) (λ o h. ids o ∙ h) p refl,
  (λ e. modify-holds ops op f (λ o. o.status ≡ sleep) rests p e),
)

pub IsQueue-Keeps : (ops ops' : Ops) (q : Ldstq) → Keeps ops ops' → IsQueue ops q → IsQueue ops' q
IsQueue-Keeps ops ops' q keeps v = record {
  width = v.width;
  used = v.used;
  sorted = v.sorted;
  in_range = v.in_range;
  one_key = v.one_key;
  mapped = v.mapped;
  own = λ i e r b. (keeps e.op).0 ∙ v.own i e r b;
}

pub Waits-Keeps :
    (ops ops' : Ops) (ldq : Ldstq) (ps : List ℕ)
    → Keeps ops ops'
    → All (Waits ops ldq) ps
    → All (Waits ops' ldq) ps
Waits-Keeps ops ops' ldq [] keeps h = tt
Waits-Keeps ops ops' ldq (p ∷ ps) keeps (w, h) =
    (((keeps p).1 w.0, w.1, w.2, w.3, w.4, w.5), Waits-Keeps ops ops' ldq ps keeps h)

pub IsWorking-Keeps :
    (ops ops' : Ops) (u : LsUnit) → Keeps ops ops' → IsWorking ops u → IsWorking ops' u
IsWorking-Keeps ops ops' u keeps v = record {
  loads = IsQueue-Keeps ops ops' u.ldq keeps v.loads;
  stores = IsQueue-Keeps ops ops' u.stq keeps v.stores;
  positive = λ j d r b. omega (arith, (keeps d.op).0, v.positive j d r b);
  waiting = λ j d r b. Waits-Keeps ops ops' u.ldq d.forward_list keeps (v.waiting j d r b);
}

-- An entry rewritten with the same number and operation.
pub rewritten-IsQueue :
    (ops : Ops) (q : Ldstq) (i : ℕ) (e d : LdstqEntry)
    → IsQueue ops q
    → get_elem? q.queue i ≡ some e
    → d.empty ≡ e.empty
    → d.dyn_id ≡ e.dyn_id
    → d.op ≡ e.op
    → IsQueue ops (record q { queue = set q.queue i d })
rewritten-IsQueue ops q i e d v read empty id op = record {
  width = length-set q.queue i d ∙ v.width;
  used = ground (arith, v.used, live-set q.queue i e d read, empty);
  sorted = v.sorted;
  in_range = v.in_range;
  one_key = v.one_key;
  mapped = λ j x r b. elim (get_elem?-set_cases q.queue i j d x r) [
    | inl (at, new) ↦
        subst (λ (y : LdstqEntry). lookup y.dyn_id q.entry_map ≡ some j) new
          (ap (λ k. lookup k q.entry_map) id
            ∙ v.mapped i e read (sym empty ∙ ap (λ (y : LdstqEntry). y.empty) new ∙ b)
            ∙ ap some at)
    | inr (away, old) ↦ v.mapped j x old b
  ];
  own = λ j x r b. elim (get_elem?-set_cases q.queue i j d x r) [
    | inl (at, new) ↦
        subst (λ (y : LdstqEntry). (ops y.op).dyn_id ≡ y.dyn_id) new
          (ap (λ k. (ops k).dyn_id) op
            ∙ v.own i e read (sym empty ∙ ap (λ (y : LdstqEntry). y.empty) new ∙ b)
            ∙ sym id)
    | inr (away, old) ↦ v.own j x old b
  ];
}

finish-Keeps : (ops : Ops) (op : ℕ) → Keeps ops (modify ops op (set_finish true))
unfolding set_finish
finish-Keeps ops op = modify-Keeps ops op (set_finish true) (λ o. refl) (λ o e. e)

complete-waiting :
    (ops : Ops) (ldq : Ldstq) (p : ℕ)
    → IsQueue ops ldq
    → Waits ops ldq p
    → complete_instruction ops ldq p ≡ some (modify ops p (set_finish true))
unfolding complete_instruction
complete-waiting ops ldq p v (asleep, i, e, read, busy, same) =
    let id : (ops p).dyn_id ≡ e.dyn_id =
      ap (λ k. (ops k).dyn_id) (sym same) ∙ v.own i e read busy in
    let at : lookup (ops p).dyn_id ldq.entry_map ≡ some i =
      ap (λ k. lookup k ldq.entry_map) id ∙ v.mapped i e read busy in
    let rests : (ops e.op).status ≡ sleep = ap (λ k. (ops k).status) same ∙ asleep in
    rw (at, read, busy, rests) refl

-- The loads that wait for one store are all completed.
pub do_forward_data-Keeps :
    (ops : Ops) (ldq : Ldstq) (ps : List ℕ)
    → IsQueue ops ldq
    → All (Waits ops ldq) ps
    → (ops' : Ops) × (do_forward_data ops ldq ps ≡ some ops') × Keeps ops ops'
unfolding do_forward_data
do_forward_data-Keeps ops ldq [] v h = (ops, refl, λ p. (refl, λ e. e))
do_forward_data-Keeps ops ldq (p ∷ ps) v (w, h) =
    let next = modify ops p (set_finish true) in
    let keeps = finish-Keeps ops p in
    let (ops', run, more) =
      do_forward_data-Keeps next ldq ps (IsQueue-Keeps ops next ldq keeps v)
        (Waits-Keeps ops next ldq ps keeps h) in
    (
      ops',
      rw (do_forward_data, w.0, complete-waiting ops ldq p v w) run,
      λ q. ((more q).0 ∙ (keeps q).0, λ e. (more q).1 ((keeps q).1 e)),
    )
