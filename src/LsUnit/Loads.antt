-- ===== src/LsUnit/Loads.antt =====
-- The loop of `LSUnit::process` (sim/src/lsu.cpp) over the load queue.
use cisim.Prelude.{
  All-map, All-snoc, ℕ, ◌<◌, ◌≡◌, ◌≢◌, refl, sym, ap, subst, ◌∙◌, arith, inl, inr, true, false,
  Bool-cases, [], ◌∷◌, ◌++◌, All, ◌==◌, get_elem?, get_elem?-lt, get_elem?-set_cases,
  get_elem?-set_self, get_elem?-set_ne, set, some,
}
use mathlib.Core.Option.{some-injective}
use cisim.Operation.{
  Operation, Ops, sleep, modify, next_status, set_status, set_finish, update_status,
}
use cisim.Operation.Modify.{modify_here}
use cisim.LoadStoreQueue.{LdstqEntry, Ldstq, empty_entry}
use cisim.LoadStoreQueue.Valid.{emptied, emptied-IsQueue}
use cisim.LsUnit.{LsUnit}
use cisim.LsUnit.Process.{mark_forwarded}
use cisim.LsUnit.Working.{Waits, IsWorking, Keeps, modify-Keeps, rewritten-IsQueue}

module _ (ops : Ops) (u : LsUnit) (i : ℕ) (e : LdstqEntry) (v : IsWorking ops u)
    (read : get_elem? u.ldq.queue i ≡ some e) where
  -- The entry of a load with another source of its data.
  abbrev pub marked : ℕ → Ldstq
  marked f = record u.ldq { queue = set u.ldq.queue i (mark_forwarded e f) }

  Waits-marked : (f p : ℕ) → Waits ops u.ldq p → Waits ops (marked f) p
  Waits-marked f p (asleep, j, d, at, busy, same) = elim (Bool-cases (i == j)) [
    | inl here ↦
        let here' : i ≡ j = ground (arith, here) in
        let e_d : e ≡ d = some-injective _ _ (sym read ∙ ap (get_elem? u.ldq.queue) here' ∙ at) in
        (
          asleep,
          i,
          mark_forwarded e f,
          get_elem?-set_self u.ldq.queue i (mark_forwarded e f) (get_elem?-lt u.ldq.queue i e read),
          ap (λ (x : LdstqEntry). x.empty) e_d ∙ busy,
          ap (λ (x : LdstqEntry). x.op) e_d ∙ same,
        )
    | inr away ↦ (
      asleep,
      j,
      d,
      get_elem?-set_ne u.ldq.queue i j (mark_forwarded e f) (λ h. absurd (ground (arith, h, away)))
          ∙ at,
      busy,
      same,
    )
  ]

  pub marked-IsWorking : (f : ℕ) → IsWorking ops (record u { ldq = marked f })
  marked-IsWorking f = record {
    loads = rewritten-IsQueue ops u.ldq i e (mark_forwarded e f) v.loads read refl refl refl;
    stores = v.stores;
    positive = v.positive;
    waiting = λ j d r b.
        All-map (Waits ops u.ldq) (Waits ops (marked f)) d.forward_list (Waits-marked f)
          (v.waiting j d r b);
  }

  -- A committed load leaves.
  Waits-emptied :
      (ops e.op).status ≢ sleep → (p : ℕ) → Waits ops u.ldq p → Waits ops (emptied u.ldq i) p
  Waits-emptied awake p (asleep, j, d, at, busy, same) =
      let away : i ≢ j = λ h. awake (
        ap (λ k. (ops k).status)
          (ap (λ (x : LdstqEntry). x.op)
              (some-injective _ _ (sym read ∙ ap (get_elem? u.ldq.queue) h ∙ at))
            ∙ same)
        ∙ asleep) in
      (asleep, j, d, get_elem?-set_ne u.ldq.queue i j empty_entry away ∙ at, busy, same)

  pub emptied-IsWorking :
      e.empty ≡ false
      → (ops e.op).status ≢ sleep
      → IsWorking ops (record u { ldq = emptied u.ldq i })
  emptied-IsWorking busy awake = record {
    loads = emptied-IsQueue ops u.ldq i e v.loads read busy;
    stores = v.stores;
    positive = v.positive;
    waiting = λ j d r b.
        All-map (Waits ops u.ldq) (Waits ops (emptied u.ldq i)) d.forward_list (Waits-emptied awake)
          (v.waiting j d r b);
  }

-- A load joins those that wait for the store of entry `j`.
abbrev pub joined : LsUnit → ℕ → LdstqEntry → ℕ → LsUnit
joined u j f p = record u {
  stq = record u.stq {
    queue = set u.stq.queue j (record f { forward_list = f.forward_list ++ (p ∷ []) });
  };
}

pub joined-IsWorking :
    (ops : Ops) (u : LsUnit) (j : ℕ) (f : LdstqEntry) (p : ℕ)
    → IsWorking ops u
    → get_elem? u.stq.queue j ≡ some f
    → f.empty ≡ false
    → Waits ops u.ldq p
    → IsWorking ops (joined u j f p)
joined-IsWorking ops u j f p v read busy w =
    let d = record f { forward_list = f.forward_list ++ (p ∷ []) } in
    record {
      loads = v.loads;
      stores = rewritten-IsQueue ops u.stq j f d v.stores read refl refl refl;
      positive = λ k x r b. elim (get_elem?-set_cases u.stq.queue j k d x r) [
        | inl (at, new) ↦
            subst (λ (y : LdstqEntry). 0 < (ops y.op).dyn_id) new (v.positive j f read busy)
        | inr (away, old) ↦ v.positive k x old b
      ];
      waiting = λ k x r b. elim (get_elem?-set_cases u.stq.queue j k d x r) [
        | inl (at, new) ↦
            subst (λ (y : LdstqEntry). All (Waits ops u.ldq) y.forward_list) new
              (All-snoc (Waits ops u.ldq) f.forward_list p (v.waiting j f read busy) w)
        | inr (away, old) ↦ v.waiting k x old b
      ];
    }

pub sleep-Keeps : (ops : Ops) (op : ℕ) → Keeps ops (modify ops op (set_status sleep))
unfolding set_status
sleep-Keeps ops op = modify-Keeps ops op (set_status sleep) (λ o. refl) (λ o e. refl)

pub finish-Keeps : (ops : Ops) (op : ℕ) → Keeps ops (modify ops op (set_finish true))
unfolding set_finish
finish-Keeps ops op = modify-Keeps ops op (set_finish true) (λ o. refl) (λ o e. e)

pub update-Keeps : (ops : Ops) (op : ℕ) → Keeps ops (modify ops op update_status)
unfolding update_status
update-Keeps ops op = modify-Keeps ops op update_status (λ o. refl) (λ o e. ap next_status e)

pub asleep_now : (ops : Ops) (op : ℕ) → (modify ops op (set_status sleep) op).status ≡ sleep
unfolding set_status
asleep_now ops op = ap (λ (o : Operation). o.status) (modify_here ops op (set_status sleep))
