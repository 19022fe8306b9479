-- ===== src/Core/Back.antt =====
-- What holds of the buffers of the core between its stages, and the dispatch of one operation
-- (`Core::dispatch` of sim/src/core.cpp).
use cisim.Prelude.{
  ℕ, ◌+◌, ◌≤◌, ◌<◌, ◌≡◌, ◌≢◌, inl, inr, refl, sym, ap, subst, ◌∙◌, arith, Bool, true, false, not,
  ◌&&◌, Bool-cases, Option-cases, ◌==◌, if◌then◌else◌, List, [], ◌∷◌, ◌++◌, length, none, some,
}
use cisim.Prelude.Dict.{lookup}
use cisim.Prelude.DictOrder.{lookup-remapped_none}
use cisim.Operation.{
  Operation, Ops, is_status, is_load, is_store, init, allocated, next_status, update_status, modify,
}
use cisim.Operation.Modify.{modify_here, modify_there, modify-holds}
use mathlib.Core.Option.{some-injective}
use cisim.LoadStoreQueue.{Ldstq, if_full, add_instruction}
use cisim.LoadStoreQueue.Add.{IsBelow, add_instruction-IsBelow}
use cisim.LsUnit.{LsUnit, add_to_queues}
use cisim.LsUnit
use cisim.LsUnit.Working.{Keeps, modify-Keeps, IsQueue-Keeps}
use cisim.LsUnit.Dispatch.{IsUnit, can_dispatch-IsUnit, Held, Enters-Held}
use cisim.Window.{Window, if_rob_full}
use cisim.Window
use cisim.RequestOrderingUnit
use cisim.Window.Ring.{IsRing, full-IsRing, pushed-IsRing}
use cisim.Window.Dispatch.{counted-IsRing, moved, add_instruction-moved}
use cisim.Window.Retire.{loads_kind, stores_kind}
use cisim.Core.{Core, may_dispatch, dispatch_one}

-- The reorder buffer holds `xs`, the oldest first, the load and store queues are well formed, and all
-- numbers in these are below `n`.
pub record IsBack (c : Core) (n : ℕ) (xs : List ℕ) : Type 0 where
  pub ring : IsRing c.ops c.window xs
  pub units : IsUnit c.ops c.lsu
  pub below : (k : ℕ) → n ≤ k → lookup k c.window.op_entry_map ≡ none
  pub loads : IsBelow n c.lsu.ldq
  pub stores : IsBelow n c.lsu.stq

pub IsRing-Keeps :
    (ops ops' : Ops) (w : Window) (xs : List ℕ)
    → Keeps ops ops'
    → IsRing ops w xs
    → IsRing ops' w xs
IsRing-Keeps ops ops' w xs keeps v = record {
  width = v.width;
  head_in = v.head_in;
  used = v.used;
  fits = v.fits;
  tail_at = v.tail_at;
  taken = v.taken;
  free = v.free;
  sorted = v.sorted;
  one_key = v.one_key;
  mapped = λ k op e. ap (λ d. lookup d w.op_entry_map) (keeps op).0 ∙ v.mapped k op e;
}

pub IsBack-Keeps :
    (c : Core) (ops : Ops) (n : ℕ) (xs : List ℕ)
    → Keeps c.ops ops
    → IsBack c n xs
    → IsBack (record c { ops = ops }) n xs
IsBack-Keeps c ops n xs keeps v = record {
  ring = IsRing-Keeps c.ops ops c.window xs keeps v.ring;
  units = (
    IsQueue-Keeps c.ops ops c.lsu.ldq keeps v.units.0,
    IsQueue-Keeps c.ops ops c.lsu.stq keeps v.units.1,
  );
  below = v.below;
  loads = v.loads;
  stores = v.stores;
}

status-Keeps : (ops : Ops) (op : ℕ) → Keeps ops (modify ops op update_status)
unfolding update_status
status-Keeps ops op = modify-Keeps ops op update_status (λ o. refl) (λ o e. ap next_status e)

-- A queue that takes an operation or stays has numbers below the next bound.
add_to_queues-IsBelow :
    (ops : Ops) (u u' : LsUnit) (op n : ℕ)
    → IsUnit ops u
    → LsUnit.can_dispatch ops u op true ≡ true
    → IsBelow n u.ldq
    → IsBelow n u.stq
    → (ops op).dyn_id < n
    → add_to_queues ops u op ≡ some u'
    → IsBelow n u'.ldq × IsBelow n u'.stq
unfolding LsUnit.can_dispatch add_to_queues
add_to_queues-IsBelow ops u u' op n v can loads stores lt run =
    let Goal : LsUnit → Type 0 = λ u'. IsBelow n u'.ldq × IsBelow n u'.stq in
    elim (Bool-cases (is_load (ops op))) [
      | inl is_l ↦
          let room : if_full u.ldq ≡ false = ground (arith, can, is_l) in
          elim (Option-cases (add_instruction ops u.ldq op)) [
            | inl fails ↦
                let h : add_to_queues ops u op ≡ none = rw (is_l, fails) refl in
                absurd (cc (run, h))
            | inr (q, adds) ↦
                let h : add_to_queues ops u op ≡ some (record u { ldq = q }) =
                  rw (is_l, adds) refl in
                subst Goal (some-injective _ _ (sym h ∙ run)) (
                  add_instruction-IsBelow ops u.ldq op n v.0 room (ground (arith, is_l)) loads lt q
                      adds,
                  stores,
                )
          ]
      | inr other ↦ elim (Bool-cases (is_store (ops op))) [
        | inl is_s ↦
            let room : if_full u.stq ≡ false = ground (arith, can, other, is_s) in
            elim (Option-cases (add_instruction ops u.stq op)) [
              | inl fails ↦
                  let h : add_to_queues ops u op ≡ none = rw (other, is_s, fails) refl in
                  absurd (cc (run, h))
              | inr (q, adds) ↦
                  let h : add_to_queues ops u op ≡ some (record u { stq = q }) =
                    rw (other, is_s, adds) refl in
                  subst Goal (some-injective _ _ (sym h ∙ run)) (
                    loads,
                    add_instruction-IsBelow ops u.stq op n v.1 room (ground (arith, is_s)) stores lt
                        q adds,
                  )
            ]
        | inr neither ↦
            let h : add_to_queues ops u op ≡ some u = rw (other, neither) refl in
            subst Goal (some-injective _ _ (sym h ∙ run)) (loads, stores)
      ]
    ]

-- What the dispatch of one operation leaves.
pub record Enters (c : Core) (op : ℕ) (xs : List ℕ) (c' : Core) : Type 0 where
  pub back : IsBack c' ((c.ops op).dyn_id + 1) (xs ++ op ∷ [])
  pub status : (c'.ops op).status ≡ allocated
  pub others : (p : ℕ) → op ≢ p → c'.ops p ≡ c.ops p
  pub ids : (p : ℕ) → (c'.ops p).dyn_id ≡ (c.ops p).dyn_id
  pub used : c'.window.issue_queue_used ≡ c.window.issue_queue_used + 1
  pub width : c'.window.window_size ≡ c.window.window_size
  pub issue_queue : c'.issue_queue ≡ c.issue_queue
  pub kinds : (p : ℕ) → (c'.ops p).kind ≡ (c.ops p).kind
  pub held : Held c.lsu op (is_load (c.ops op)) (is_store (c.ops op)) c'.lsu

kind_kept :
    (ops : Ops) (op : ℕ) (f : Operation → Operation)
    → ((o : Operation) → (f o).kind ≡ o.kind)
    → (p : ℕ) → (modify ops op f p).kind ≡ (ops p).kind
kind_kept ops op f h p = modify-holds ops op f (λ o. o.kind ≡ (ops p).kind) (λ o e. h o ∙ e) p refl

weaker : (n m : ℕ) (q : Ldstq) → n ≤ m → IsBelow n q → IsBelow m q
weaker n m q le h i e r b = omega (arith, h i e r b, le)

-- The guard of the load and store unit asks for the kind only.
can_dispatch-moved :
    (ops : Ops) (u : LsUnit) (op : ℕ)
    → LsUnit.can_dispatch (modify ops op update_status) u op true
      ≡ LsUnit.can_dispatch ops u op true
unfolding LsUnit.can_dispatch update_status
can_dispatch-moved ops u op =
    let of : Operation → Bool = λ o. LsUnit.can_dispatch (λ p. o) u op true in
    ap of (modify_here ops op update_status)

may-parts :
    (c : Core) (op : ℕ) (full : Bool)
    → if_rob_full c.window ≡ some full
    → may_dispatch c op ≡ some true
    → (full ≡ false) × (LsUnit.can_dispatch c.ops c.lsu op true ≡ true)
unfolding may_dispatch
may-parts c op full e may =
    let room = LsUnit.can_dispatch c.ops c.lsu op true in
    let h : may_dispatch c op
        ≡ (if Window.can_dispatch c.window then some (not full && room) else some false) =
      rw e refl in
    ground (arith, sym h ∙ may)

pub dispatch_one-Enters :
    (c : Core) (n : ℕ) (xs : List ℕ) (op : ℕ)
    → IsBack c n xs
    → n ≤ (c.ops op).dyn_id
    → (c.ops op).status ≡ init
    → may_dispatch c op ≡ some true
    → (c' : Core) × (dispatch_one c op ≡ some c') × Enters c op xs c'
unfolding dispatch_one LsUnit.can_dispatch update_status
dispatch_one-Enters c n xs op v new starts may =
    let ops = modify c.ops op update_status in
    let keeps = status-Keeps c.ops op in
    let starts' : is_status (c.ops op).status init ≡ true = ap (λ s. is_status s init) starts in
    let (space, room) =
      may-parts c op (length xs == c.window.rob_size) (full-IsRing c.ops c.window xs v.ring) may in
    let less : length xs < c.window.rob_size = ground (arith, space, v.ring.used, v.ring.fits) in
    let d = (c.ops op).dyn_id in
    let own : (ops op).dyn_id ≡ d = (keeps op).0 in
    let b = IsBack-Keeps c ops n xs keeps v in
    let absent : lookup (ops op).dyn_id c.window.op_entry_map ≡ none =
      v.below (ops op).dyn_id (omega (arith, own, new)) in
    let room' : LsUnit.can_dispatch ops c.lsu op true ≡ true =
      can_dispatch-moved c.ops c.lsu op ∙ room in
    let (lsu, adds, units, enters) =
      can_dispatch-IsUnit ops c.lsu op b.units room'
        (λ i e r busy. ground (arith, v.loads i e r busy, own, new))
        (λ i e r busy. ground (arith, v.stores i e r busy, own, new)) in
    let (low_l, low_s) =
      add_to_queues-IsBelow ops c.lsu lsu op (d + 1) b.units room'
        (weaker n (d + 1) c.lsu.ldq (omega (arith, new)) v.loads)
        (weaker n (d + 1) c.lsu.stq (omega (arith, new)) v.stores) (omega (arith, own)) adds in
    let held : Held c.lsu op (is_load (c.ops op)) (is_store (c.ops op)) lsu =
      subst (λ k. Held c.lsu op (loads_kind k) (stores_kind k) lsu)
        (kind_kept c.ops op update_status (λ o. refl) op) (Enters-Held ops c.lsu op lsu enters) in
    let window = moved ops c.window xs op b.ring in
    let adds_w = add_instruction-moved ops c.window xs op b.ring less absent in
    let ops' = modify ops op (λ o. record o { dispatch_cycle = c.cycles }) in
    let keeps' : Keeps ops ops' =
      modify-Keeps ops op (λ o. record o { dispatch_cycle = c.cycles }) (λ o. refl) (λ o e. e) in
    let c1 = record c {
      ops = ops;
      window = window;
      lsu = lsu;
      rou = RequestOrderingUnit.add_instruction c.rou (ops op);
    } in
    let back : IsBack c1 (d + 1) (xs ++ op ∷ []) = record {
      ring =
          pushed-IsRing ops (Window.increment_issue_queue_used c.window) xs op
            (counted-IsRing ops c.window xs b.ring) less absent;
      units = units;
      below = λ k le.
          lookup-remapped_none c.window.op_entry_map (ops op).dyn_id c.window.rob_tail v.ring.sorted
            k (λ e. omega (arith, e, own, le)) (v.below k (omega (arith, le, new)));
      loads = low_l;
      stores = low_s;
    } in
    (
      record c1 { ops = ops' },
      rw (starts', adds_w, adds) refl,
      record {
        back = IsBack-Keeps c1 ops' (d + 1) (xs ++ op ∷ []) keeps' back;
        status =
            ap (λ (o : Operation). o.status)
              (modify_here ops op (λ o. record o { dispatch_cycle = c.cycles }))
            ∙ (ap (λ (o : Operation). o.status) (modify_here c.ops op update_status)
                ∙ ap next_status starts);
        others = λ p ne.
            let away : (op == p) ≡ false = ground (arith, ne) in
            modify_there ops op (λ o. record o { dispatch_cycle = c.cycles }) p away
            ∙ modify_there c.ops op update_status p away;
        ids = λ p. (keeps' p).0 ∙ (keeps p).0;
        used = refl;
        width = refl;
        issue_queue = refl;
        kinds = λ p.
            kind_kept ops op (λ o. record o { dispatch_cycle = c.cycles }) (λ o. refl) p
            ∙ kind_kept c.ops op update_status (λ o. refl) p;
        held = held;
      },
    )
