-- ===== src/LsUnit/Cycle.antt =====
-- One cycle of the load and store unit (`LSUnit::process` of sim/src/lsu.cpp).
use cisim.Prelude.{
  ℕ, zero, suc, ◌+◌, ◌<◌, ◌≤◌, ◌≡◌, ◌≢◌, refl, sym, ap, ◌∙◌, arith, inl, inr, true, false,
  Bool-cases, length, length-set, get_elem?, get_elem?-in, get_elem?-lt, get_elem?-set_self, Option,
  some,
}
use cisim.Operation.{
  Ops, is_status, at_least, commited, issued, sleep, ready, modify, set_status, set_finish,
  update_status, rank,
}
use cisim.LoadStoreQueue.{LdstqEntry, empty_entry}
use cisim.LoadStoreQueue.Valid.{emptied, free_entry-emptied}
use cisim.LsUnit.{LsUnit, MemPort, Receives}
use cisim.LsUnit.Forward.{forward_data-Youngest}
use cisim.LsUnit.Process.{
  State, request, mark_forwarded, forward_from, send_load, step_store, step_load, each, process,
}
use cisim.LsUnit.Working.{IsWorking, IsWorking-Keeps}
use cisim.LsUnit.Stores.{step_store-IsWorking}
use cisim.LsUnit.Loads.{
  marked, marked-IsWorking, emptied-IsWorking, joined, joined-IsWorking, sleep-Keeps, finish-Keeps,
  update-Keeps, asleep_now,
}

module _ (Cache : Type 0) (port : MemPort Cache) (Ready : Cache → Type 0)
    (receives : Receives Cache port Ready) where
  -- A step that returns, keeps the invariant and a cache that is ready, and leaves the length of the load queue.
  abbrev Loaded : Option (State Cache port) → ℕ → Type 0
  Loaded r n =
      (s : State Cache port) × (r ≡ some s)
      × IsWorking s.0 s.1
      × Ready s.2
      × (length s.1.ldq.queue ≡ n)

  module _ (ops : Ops) (u : LsUnit) (cache : Cache) (i : ℕ) (e : LdstqEntry) (v : IsWorking ops u)
      (is_ready : Ready cache) where
    forward_from-IsWorking :
        (j : ℕ) (f : LdstqEntry)
        → get_elem? u.ldq.queue i ≡ some e
        → e.empty ≡ false
        → get_elem? u.stq.queue j ≡ some f
        → f.empty ≡ false
        → Loaded (forward_from Cache port (ops, u, cache) i e j) (length u.ldq.queue)
    unfolding forward_from
    forward_from-IsWorking j f read busy read' busy' =
        let slept = modify ops e.op (set_status sleep) in
        let v' : IsWorking slept u = IsWorking-Keeps ops slept u (sleep-Keeps ops e.op) v in
        let next = record u { ldq = marked slept u i e v' read f.op } in
        let w : IsWorking slept next = marked-IsWorking slept u i e v' read f.op in
        let same = length-set u.ldq.queue i (mark_forwarded e f.op) in
        elim (Bool-cases (at_least (slept f.op).status ready)) [
          | inl done ↦
              let last = modify slept e.op (set_finish true) in
              (
                (last, next, cache),
                rw (read', done) refl,
                IsWorking-Keeps slept last next (finish-Keeps slept e.op) w,
                is_ready,
                same,
              )
          | inr early ↦ (
            (slept, joined next j f e.op, cache),
            rw (read', early) refl,
            joined-IsWorking slept next j f e.op w read' busy' (
              asleep_now ops e.op,
              i,
              mark_forwarded e f.op,
              get_elem?-set_self u.ldq.queue i (mark_forwarded e f.op)
                  (get_elem?-lt u.ldq.queue i e read),
              busy,
              refl,
            ),
            is_ready,
            same,
          )
        ]

    send_load-IsWorking : Loaded (send_load Cache port (ops, u, cache) e) (length u.ldq.queue)
    unfolding send_load
    send_load-IsWorking =
        elim (Bool-cases (port.will_accept_transaction cache (request ops e.op))) [
          | inl accepted ↦
              let next = modify ops e.op update_status in
              let (cache', received, next_ready) =
                receives cache (request ops e.op) is_ready refl accepted in
              (
                (next, u, cache'),
                rw (accepted, received) refl,
                IsWorking-Keeps ops next u (update-Keeps ops e.op) v,
                next_ready,
                refl,
              )
          | inr full ↦ ((ops, u, cache), rw full refl, v, is_ready, refl)
        ]

    issued-IsWorking :
        get_elem? u.ldq.queue i ≡ some e
        → e.empty ≡ false
        → is_status (ops e.op).status issued ≡ true
        → Loaded (step_load Cache port (ops, u, cache) i) (length u.ldq.queue)
    unfolding step_load
    issued-IsWorking read busy now =
        let (r, run, found) =
          forward_data-Youngest ops u.stq e.op v.stores
            (λ j d at m. v.positive j d at (ground (arith, m))) in
        elim found [
          | inl (nothing, unmatched) ↦
              let (s', sent, v', r', same) = send_load-IsWorking in
              let to_cache : step_load Cache port (ops, u, cache) i
                  ≡ send_load Cache port (ops, u, cache) e =
                simp (read, busy, now, run, nothing) in
              (s', to_cache ∙ sent, v', r', same)
          | inr (j, f, at, read', m, youngest) ↦
              let (s', sent, v', r', same) =
                forward_from-IsWorking j f read busy read' (ground (arith, m)) in
              let to_store : step_load Cache port (ops, u, cache) i
                  ≡ forward_from Cache port (ops, u, cache) i e j =
                simp (read, busy, now, run, at) in
              (s', to_store ∙ sent, v', r', same)
        ]

    commited-IsWorking :
        get_elem? u.ldq.queue i ≡ some e
        → e.empty ≡ false
        → is_status (ops e.op).status issued ≡ false
        → is_status (ops e.op).status commited ≡ true
        → Loaded (step_load Cache port (ops, u, cache) i) (length u.ldq.queue)
    unfolding step_load
    commited-IsWorking read busy later done =
        let awake : (ops e.op).status ≢ sleep = λ h. absurd (ground (arith, done, ap rank h)) in
        (
          (ops, record u { ldq = emptied u.ldq i }, cache),
          rw
              (
                read,
                busy,
                later,
                done,
                free_entry-emptied ops u.ldq e.op i e v.loads read busy
                    (sym (v.loads.own i e read busy)),
              )
              refl,
          emptied-IsWorking ops u i e v read busy awake,
          is_ready,
          length-set u.ldq.queue i empty_entry,
        )

  step_load-IsWorking :
      (s : State Cache port) (i : ℕ)
      → IsWorking s.0 s.1
      → Ready s.2
      → i < length s.1.ldq.queue
      → Loaded (step_load Cache port s i) (length s.1.ldq.queue)
  unfolding step_load
  step_load-IsWorking (ops, u, cache) i v is_ready lt =
      let (e, read) = get_elem?-in u.ldq.queue i lt in
      elim (Bool-cases e.empty) [
        | inl gone ↦ ((ops, u, cache), rw (read, gone) refl, v, is_ready, refl)
        | inr busy ↦ elim (Bool-cases (is_status (ops e.op).status issued)) [
          | inl now ↦ issued-IsWorking ops u cache i e v is_ready read busy now
          | inr later ↦ elim (Bool-cases (is_status (ops e.op).status commited)) [
            | inl done ↦ commited-IsWorking ops u cache i e v is_ready read busy later done
            | inr waits ↦ ((ops, u, cache), rw (read, busy, later, waits) refl, v, is_ready, refl)
          ]
        ]
      ]

  -- A loop over the entries of a queue whose steps keep the invariant and the length.
  each-IsWorking :
      (size : State Cache port → ℕ) (step : State Cache port → ℕ → Option (State Cache port))
      → ((s : State Cache port) (i : ℕ)
          → IsWorking s.0 s.1
          → Ready s.2
          → i < size s
          → (s' : State Cache port) × (step s i ≡ some s')
            × IsWorking s'.0 s'.1
            × Ready s'.2
            × (size s' ≡ size s))
      → (n i : ℕ) (s : State Cache port) → IsWorking s.0 s.1
      → Ready s.2
      → i + n ≤ size s
      → (s' : State Cache port) × (each Cache port step n i s ≡ some s')
        × IsWorking s'.0 s'.1
        × Ready s'.2
  unfolding each
  each-IsWorking size step keeps zero i s v is_ready le = (s, refl, v, is_ready)
  each-IsWorking size step keeps (suc n) i s v is_ready le =
      let (s', run, v', r', same) = keeps s i v is_ready (omega (arith, le)) in
      let (last, rest, v'', r'') =
        each-IsWorking size step keeps n (suc i) s' v' r' (omega (arith, le, same)) in
      (last, rw run rest, v'', r'')

  -- Where the cache is ready, so that it can receive what it accepts, `process` fails no assertion from a
  -- state of a unit that works, whatever the cache accepts, and ends in such a state with a cache that is
  -- ready: both queues stay well formed, and every load that stands in the forward list
  -- of a store is asleep and has its entry.
  pub process-IsWorking :
      (s : State Cache port)
      → IsWorking s.0 s.1
      → Ready s.2
      → (s' : State Cache port) × (process Cache port s ≡ some s')
        × IsWorking s'.0 s'.1
        × Ready s'.2
  unfolding process
  process-IsWorking s v is_ready =
      let (mid, first, v', r') =
        each-IsWorking (λ x. length x.1.stq.queue) (step_store Cache port)
          (step_store-IsWorking Cache port Ready receives) (length s.1.stq.queue) 0 s v is_ready
          (omega arith) in
      let (last, second, v'', r'') =
        each-IsWorking (λ x. length x.1.ldq.queue) (step_load Cache port) step_load-IsWorking
          (length mid.1.ldq.queue) 0 mid v' r' (omega arith) in
      (last, rw first second, v'', r'')
