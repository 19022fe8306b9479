-- ===== src/LsUnit/Stores.antt =====
-- The loop of `LSUnit::process` (sim/src/lsu.cpp) over the store queue.
use cisim.Prelude.{
  ℕ, ◌<◌, ◌≡◌, refl, sym, ap, subst, ◌∙◌, arith, inl, inr, false, Bool-cases, [], All,
  if◌then◌else◌, length, length-set, get_elem?, get_elem?-in, get_elem?-set_cases, set, Option,
  some,
}
use cisim.Operation.{Ops, is_status, at_least, commited, ready}
use cisim.LoadStoreQueue.{LdstqEntry, Ldstq, empty_entry}
use cisim.LoadStoreQueue.Valid.{emptied, emptied-IsQueue, free_entry-emptied, read_kept}
use cisim.LsUnit.{LsUnit, MemPort, Receives}
use cisim.LsUnit.Process.{State, request, clear_list, send_store, wake_loads, step_store}
use cisim.LsUnit.Working.{
  Waits, IsWorking, IsWorking-Keeps, rewritten-IsQueue, do_forward_data-Keeps,
}

-- The store of an entry leaves.
freed-IsWorking :
    (ops : Ops) (u : LsUnit) (i : ℕ) (e : LdstqEntry)
    → IsWorking ops u
    → get_elem? u.stq.queue i ≡ some e
    → e.empty ≡ false
    → IsWorking ops (record u { stq = emptied u.stq i })
freed-IsWorking ops u i e v read busy = record {
  loads = v.loads;
  stores = emptied-IsQueue ops u.stq i e v.stores read busy;
  positive = λ j d r b. v.positive j d (read_kept u.stq.queue i j d r b) b;
  waiting = λ j d r b. v.waiting j d (read_kept u.stq.queue i j d r b) b;
}

clear_list_busy :
    (q : Ldstq) (i : ℕ) (e : LdstqEntry)
    → e.empty ≡ false
    → clear_list q i e ≡ record q { queue = set q.queue i (record e { forward_list = [] }) }
clear_list_busy q i e busy =
    ap (λ b. if b then q else record q { queue = set q.queue i (record e { forward_list = [] }) })
      busy

-- The forward list of an entry is cleared.
cleared-IsWorking :
    (ops : Ops) (u : LsUnit) (i : ℕ) (e : LdstqEntry)
    → IsWorking ops u
    → get_elem? u.stq.queue i ≡ some e
    → IsWorking ops (record u { stq = clear_list u.stq i e })
cleared-IsWorking ops u i e v read = elim (Bool-cases e.empty) [
  | inl gone ↦ rw gone v
  | inr busy ↦
      let d = record e { forward_list = [] } in
      let next : IsWorking ops (record u { stq = record u.stq { queue = set u.stq.queue i d } }) =
        record {
          loads = v.loads;
          stores = rewritten-IsQueue ops u.stq i e d v.stores read refl refl refl;
          positive = λ j x r b. elim (get_elem?-set_cases u.stq.queue i j d x r) [
            | inl (at, new) ↦
                subst (λ (y : LdstqEntry). 0 < (ops y.op).dyn_id) new (v.positive i e read busy)
            | inr (away, old) ↦ v.positive j x old b
          ];
          waiting = λ j x r b. elim (get_elem?-set_cases u.stq.queue i j d x r) [
            | inl (at, new) ↦
                subst (λ (y : LdstqEntry). All (Waits ops u.ldq) y.forward_list) new tt
            | inr (away, old) ↦ v.waiting j x old b
          ];
        } in
      subst (λ (q : Ldstq). IsWorking ops (record u { stq = q }))
        (sym (clear_list_busy u.stq i e busy)) next
]

clear_list-length :
    (q : Ldstq) (i : ℕ) (e : LdstqEntry) → length (clear_list q i e).queue ≡ length q.queue
clear_list-length q i e = elim (Bool-cases e.empty) [
  | inl gone ↦ rw gone refl
  | inr busy ↦
      ap (λ (x : Ldstq). length x.queue) (clear_list_busy q i e busy)
      ∙ length-set q.queue i (record e { forward_list = [] })
]

module _ (Cache : Type 0) (port : MemPort Cache) (Ready : Cache → Type 0)
    (receives : Receives Cache port Ready) where
  -- A step that returns, keeps the invariant and a cache that is ready, and leaves the length of the store queue.
  abbrev pub Stepped : Option (State Cache port) → ℕ → Type 0
  Stepped r n =
      (s : State Cache port) × (r ≡ some s)
      × IsWorking s.0 s.1
      × Ready s.2
      × (length s.1.stq.queue ≡ n)

  module _ (ops : Ops) (u : LsUnit) (cache : Cache) (i : ℕ) (e : LdstqEntry) (v : IsWorking ops u)
      (is_ready : Ready cache) where
    -- A step that changes at most the store queue and the cache.
    send_store-IsWorking :
        get_elem? u.stq.queue i ≡ some e
        → e.empty ≡ false
        → (stq : Ldstq) × (cache' : Cache) × (send_store Cache port (ops, u, cache) e
            ≡ some (ops, record u { stq = stq }, cache'))
          × IsWorking ops (record u { stq = stq })
          × Ready cache'
          × (length stq.queue ≡ length u.stq.queue)
    unfolding send_store
    send_store-IsWorking read busy = elim (Bool-cases (is_status (ops e.op).status commited)) [
      | inr early ↦ (u.stq, cache, rw early refl, v, is_ready, refl)
      | inl committed ↦ elim (Bool-cases (port.will_accept_transaction cache (request ops e.op))) [
        | inr busy_cache ↦ (u.stq, cache, rw (committed, busy_cache) refl, v, is_ready, refl)
        | inl accepted ↦
            let (cache', received, next_ready) =
              receives cache (request ops e.op) is_ready refl accepted in
            (
              emptied u.stq i,
              cache',
              rw
                  (
                    committed,
                    accepted,
                    received,
                    free_entry-emptied ops u.stq e.op i e v.stores read busy
                        (sym (v.stores.own i e read busy)),
                  )
                  refl,
              freed-IsWorking ops u i e v read busy,
              next_ready,
              length-set u.stq.queue i empty_entry,
            )
      ]
    ]

    wake_loads-IsWorking :
        i < length u.stq.queue
        → All (Waits ops u.ldq) e.forward_list
        → Stepped (wake_loads Cache port (ops, u, cache) i e) (length u.stq.queue)
    unfolding wake_loads
    wake_loads-IsWorking lt waits = elim (Bool-cases (at_least (ops e.op).status ready)) [
      | inr early ↦ ((ops, u, cache), rw early refl, v, is_ready, refl)
      | inl done ↦
          let (ops', run, keeps) = do_forward_data-Keeps ops u.ldq e.forward_list v.loads waits in
          let (now, read) = get_elem?-in u.stq.queue i lt in
          (
            (ops', record u { stq = clear_list u.stq i now }, cache),
            rw (done, run, read) refl,
            cleared-IsWorking ops' u i now (IsWorking-Keeps ops ops' u keeps v) read,
            is_ready,
            clear_list-length u.stq i now,
          )
    ]

  pub step_store-IsWorking :
      (s : State Cache port) (i : ℕ)
      → IsWorking s.0 s.1
      → Ready s.2
      → i < length s.1.stq.queue
      → Stepped (step_store Cache port s i) (length s.1.stq.queue)
  unfolding step_store
  step_store-IsWorking (ops, u, cache) i v is_ready lt =
      let (e, read) = get_elem?-in u.stq.queue i lt in
      elim (Bool-cases e.empty) [
        | inl gone ↦ ((ops, u, cache), rw (read, gone) refl, v, is_ready, refl)
        | inr busy ↦
            let (stq, cache', sent, v', r, same) =
              send_store-IsWorking ops u cache i e v is_ready read busy in
            let (s', woken, v'', r', same') =
              wake_loads-IsWorking ops (record u { stq = stq }) cache' i e v' r
                (omega (arith, lt, same)) (v.waiting i e read busy) in
            (s', rw (read, busy, sent) woken, v'', r', same' ∙ same)
      ]
