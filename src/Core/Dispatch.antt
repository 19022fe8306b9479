-- ===== src/Core/Dispatch.antt =====
-- The dispatch of a cycle (`Core::dispatch` and `insnToIssueQueues` of sim/src/core.cpp).
use cisim.Prelude.{
  ℕ, zero, suc, ◌+◌, ◌≤◌, ◌<◌, ◌≡◌, ◌≢◌, ◌⊎◌, inl, inr, refl, sym, ap, subst, ◌∙◌, arith, Bool,
  true, false, Bool-cases, not, ◌&&◌, ◌==◌, List, [], ◌∷◌, ◌++◌, All, All-map, length, Option, some,
}
use mathlib.Core.List.{append-nil, append_assoc}
use cisim.Prelude.Dict
use cisim.Operation.{Operation, Ops, is_load, is_store, init, allocated, modify}
use cisim.Operation.Modify.{modify-holds}
use cisim.LsUnit.Working.{modify-Keeps}
use cisim.Window.Ring.{full-IsRing}
use cisim.Window.{Window}
use cisim.Window
use cisim.LsUnit.{LsUnit}
use cisim.LsUnit
use cisim.Core.{
  Core, StaticInsn, may_dispatch, dispatch_up_to, queue_one, insn_to_issue_queues, dispatch,
  dyn_deps_of,
}
use cisim.LoadStoreQueue.{Ldstq}
use cisim.LoadStoreQueue.Add.{HasEntry, KeepsEntries}
use cisim.Window.Retire.{loads_kind, stores_kind}
use cisim.Core.Back.{IsBack, IsBack-Keeps, Enters, dispatch_one-Enters}

-- The operations that wait are new, with numbers that rise from `n`.
abbrev pub IsRising : Ops → ℕ → List ℕ → Type 0
IsRising ops n [] = Unit
IsRising ops n (p ∷ queue) =
    (n ≤ (ops p).dyn_id) × ((ops p).status ≡ init) × IsRising ops ((ops p).dyn_id + 1) queue

IsRising-later :
    (ops ops' : Ops) (op n : ℕ) (queue : List ℕ)
    → (ops op).dyn_id < n
    → ((p : ℕ) → op ≢ p → ops' p ≡ ops p)
    → IsRising ops n queue
    → IsRising ops' n queue
IsRising-later ops ops' op n [] lt others h = tt
IsRising-later ops ops' op n (p ∷ queue) lt others (le, new, h) =
    let ne : op ≢ p = λ e. omega (arith, ap (λ r. (ops r).dyn_id) e, lt, le) in
    let same = others p ne in
    let number : (ops' p).dyn_id ≡ (ops p).dyn_id = ap (λ (o : Operation). o.dyn_id) same in
    (
      omega (arith, number, le),
      ap (λ (o : Operation). o.status) same ∙ new,
      subst (λ k. IsRising ops' k queue) (ap (λ k. k + 1) (sym number))
          (IsRising-later ops ops' op ((ops p).dyn_id + 1) queue (omega (arith, lt, le)) others h),
    )

-- Why the dispatch stops before its limit.
abbrev pub Stops : Core → List ℕ → Type 0
Stops c [] = Unit
Stops c (op ∷ queue) = may_dispatch c op ≡ some false

-- The loads and the stores of a list, by the kinds of `ops`, have entries in use.
abbrev pub Entered : Ops → LsUnit → List ℕ → Type 0
Entered ops u first =
    All
      (λ p.
        (is_load (ops p) ≡ true → HasEntry u.ldq p)
        × (is_load (ops p) ≡ false → is_store (ops p) ≡ true → HasEntry u.stq p))
      first

-- Both queues hold what they held.
abbrev pub Keeps : LsUnit → LsUnit → Type 0
Keeps u u' = KeepsEntries u.ldq u'.ldq × KeepsEntries u.stq u'.stq

HasEntry-Keeps : (q q' : Ldstq) (p : ℕ) → KeepsEntries q q' → HasEntry q p → HasEntry q' p
HasEntry-Keeps q q' p keeps (i, e, read, busy, own) = (i, e, keeps i e read busy, busy, own)

Keeps-trans : (u v w : LsUnit) → Keeps u v → Keeps v w → Keeps u w
Keeps-trans u v w (l, s) (l', s') = (
  (λ i e read busy. l' i e (l i e read busy) busy),
  λ i e read busy. s' i e (s i e read busy) busy,
)

Entered-kinds :
    (ops ops' : Ops) (u : LsUnit) (first : List ℕ)
    → ((p : ℕ) → (ops' p).kind ≡ (ops p).kind)
    → Entered ops' u first
    → Entered ops u first
Entered-kinds ops ops' u first kinds h =
    All-map _ _ first
      (λ p (loads, stores). (
        (λ is. loads (ap loads_kind (kinds p) ∙ is)),
        λ no is. stores (ap loads_kind (kinds p) ∙ no) (ap stores_kind (kinds p) ∙ is),
      ))
      h

-- What a dispatch of at most `limit` operations leaves, where `first` are dispatched.
pub record Dispatched (c : Core) (n : ℕ) (xs : List ℕ) (limit : ℕ) (first : List ℕ) (rest : List ℕ)
    (c' : Core) : Type 0 where
  pub bound : ℕ
  pub back : IsBack c' bound (xs ++ first)
  pub rising : IsRising c'.ops bound rest
  pub status : All (λ p. (c'.ops p).status ≡ allocated) first
  pub older : (p : ℕ) → (c.ops p).dyn_id < n → c'.ops p ≡ c.ops p
  pub used : c'.window.issue_queue_used ≡ c.window.issue_queue_used + length first
  pub issue_queue : c'.issue_queue ≡ c.issue_queue
  pub kept : Keeps c.lsu c'.lsu
  pub entered : Entered c.ops c'.lsu first
  pub stop : (length first ≡ limit) ⊎ ((length first < limit) × Stops c' rest)

nothing :
    (c : Core) (n : ℕ) (xs : List ℕ) (limit : ℕ) (queue : List ℕ)
    → IsBack c n xs
    → IsRising c.ops n queue
    → ((0 ≡ limit) ⊎ ((0 < limit) × Stops c queue))
    → Dispatched c n xs limit [] queue c
nothing c n xs limit queue v h stop = record {
  bound = n;
  back = subst (IsBack c n) (sym (append-nil xs)) v;
  rising = h;
  status = tt;
  older = λ p lt. refl;
  used = omega arith;
  issue_queue = refl;
  kept = ((λ i e read busy. read), λ i e read busy. read);
  entered = tt;
  stop = stop;
}

one_more :
    (c : Core) (n : ℕ) (xs : List ℕ) (limit op : ℕ) (first rest : List ℕ) (c1 c' : Core)
    → n ≤ (c.ops op).dyn_id
    → Enters c op xs c1
    → Dispatched c1 ((c.ops op).dyn_id + 1) (xs ++ op ∷ []) limit first rest c'
    → Dispatched c n xs (suc limit) (op ∷ first) rest c'
one_more c n xs limit op first rest c1 c' le e d = record {
  bound = d.bound;
  back = subst (IsBack c' d.bound) (append_assoc xs (op ∷ []) first) d.back;
  rising = d.rising;
  status = (
    ap (λ (o : Operation). o.status) (d.older op (omega (arith, e.ids op))) ∙ e.status,
    d.status,
  );
  older = λ p lt.
      d.older p (omega (arith, e.ids p, lt, le))
      ∙ e.others p (λ s. omega (arith, ap (λ r. (c.ops r).dyn_id) s, lt, le));
  used = omega (arith, d.used, e.used);
  issue_queue = d.issue_queue ∙ e.issue_queue;
  kept = Keeps-trans c.lsu c1.lsu c'.lsu (e.held.loads_kept, e.held.stores_kept) d.kept;
  entered = (
    (
      (λ is. HasEntry-Keeps c1.lsu.ldq c'.lsu.ldq op d.kept.0 (e.held.load is)),
      λ no is. HasEntry-Keeps c1.lsu.stq c'.lsu.stq op d.kept.1 (e.held.store no is),
    ),
    Entered-kinds c.ops c1.ops c'.lsu first e.kinds d.entered,
  );
  stop = elim d.stop [ inl all ↦ inl (ap suc all) | inr (lt, why) ↦ inr (omega (arith, lt), why) ];
}

may_dispatch-returns :
    (c : Core) (n : ℕ) (xs : List ℕ) (op : ℕ)
    → IsBack c n xs
    → (may_dispatch c op ≡ some true) ⊎ (may_dispatch c op ≡ some false)
unfolding may_dispatch
may_dispatch-returns c n xs op v =
    let full = full-IsRing c.ops c.window xs v.ring in
    let free = not (length xs == c.window.rob_size) && LsUnit.can_dispatch c.ops c.lsu op true in
    elim (Bool-cases (Window.can_dispatch c.window)) [
      | inr shut ↦ inr (rw shut refl)
      | inl room ↦ elim (Bool-cases free) [
        | inl may ↦ inl (rw (room, full) (ap some may))
        | inr may_not ↦ inr (rw (room, full) (ap some may_not))
      ]
    ]

dispatch_up_to-Dispatched :
    (limit : ℕ) (c : Core) (n : ℕ) (xs queue dispatched : List ℕ)
    → IsBack c n xs
    → IsRising c.ops n queue
    → (c' : Core) × (rest : List ℕ) × (first : List ℕ) × (dispatch_up_to limit c queue dispatched
        ≡ some (c', rest, dispatched ++ first))
      × (queue ≡ first ++ rest)
      × Dispatched c n xs limit first rest c'
unfolding dispatch_up_to
dispatch_up_to-Dispatched zero c n xs queue dispatched v h = (
  c,
  queue,
  [],
  ap (λ l. some (c, queue, l)) (sym (append-nil dispatched)),
  refl,
  nothing c n xs 0 queue v h (inl refl),
)
dispatch_up_to-Dispatched (suc limit) c n xs [] dispatched v h = (
  c,
  [],
  [],
  ap (λ l. some (c, [], l)) (sym (append-nil dispatched)),
  refl,
  nothing c n xs (suc limit) [] v h (inr (omega arith, tt)),
)
dispatch_up_to-Dispatched (suc limit) c n xs (op ∷ queue) dispatched v (le, new, h) =
    elim (may_dispatch-returns c n xs op v) [
      | inr may_not ↦ (
        c,
        op ∷ queue,
        [],
        rw (dispatch_up_to, may_not)
            (ap (λ l. some (c, op ∷ queue, l)) (sym (append-nil dispatched))),
        refl,
        nothing c n xs (suc limit) (op ∷ queue) v (le, new, h) (inr (omega arith, may_not)),
      )
      | inl may ↦
          let (c1, enters, e) = dispatch_one-Enters c n xs op v le new may in
          let h1 =
            IsRising-later c.ops c1.ops op ((c.ops op).dyn_id + 1) queue (omega arith) e.others h in
          let (c', rest, first, runs, split, d) =
            dispatch_up_to-Dispatched limit c1 ((c.ops op).dyn_id + 1) (xs ++ op ∷ []) queue
              (dispatched ++ op ∷ []) e.back h1 in
          (
            c',
            rest,
            op ∷ first,
            rw (dispatch_up_to, may, enters)
                (runs ∙ ap (λ l. some (c', rest, l)) (append_assoc dispatched (op ∷ []) first)),
            ap (◌∷◌ op) split,
            one_more c n xs limit op first rest c1 c' le e d,
          )
    ]

-- What `insnToIssueQueues` leaves.
record Queued (c : Core) (first : List ℕ) (c' : Core) : Type 0 where
  issue_queue : c'.issue_queue ≡ c.issue_queue ++ first
  insn_queue : c'.insn_queue ≡ c.insn_queue
  window : c'.window ≡ c.window
  lsu : c'.lsu ≡ c.lsu
  back : (n : ℕ) (xs : List ℕ) → IsBack c n xs → IsBack c' n xs
  same : (p : ℕ) → ((c'.ops p).dyn_id ≡ (c.ops p).dyn_id) × ((c'.ops p).status ≡ (c.ops p).status)
  may : (p : ℕ) → may_dispatch c' p ≡ may_dispatch c p

module _ (info : ℕ → StaticInsn) where
  queue_one-Queued : (c : Core) (op : ℕ) → Queued c (op ∷ []) (queue_one info c op)
  unfolding queue_one may_dispatch LsUnit.can_dispatch
  queue_one-Queued c op =
      let m = Dict.insert (info op).uid op c.uid_dyn_op_map in
      let f : Operation → Operation =
        λ o. record o { dyn_deps = o.dyn_deps ++ dyn_deps_of c.ops m (info op).static_deps } in
      let keeps = modify-Keeps c.ops op f (λ o. refl) (λ o e. e) in
      record {
        issue_queue = refl;
        insn_queue = refl;
        window = refl;
        lsu = refl;
        back = λ n xs v.
            let b = IsBack-Keeps c (modify c.ops op f) n xs keeps v in
            record {
              ring = b.ring;
              units = b.units;
              below = b.below;
              loads = b.loads;
              stores = b.stores;
            };
        same = λ p. (
          (keeps p).0,
          modify-holds c.ops op f (λ o. o.status ≡ (c.ops p).status) (λ o h. h) p refl,
        );
        may = λ p.
            let of : Operation → Option Bool = λ o. may_dispatch (record c { ops = λ q. o }) p in
            modify-holds c.ops op f (λ o. of o ≡ of (c.ops p)) (λ o h. h) p refl;
      }

  insn_to_issue_queues-Queued :
      (first : List ℕ) (c : Core) → Queued c first (insn_to_issue_queues info first c)
  unfolding insn_to_issue_queues queue_one
  insn_to_issue_queues-Queued [] c = record {
    issue_queue = sym (append-nil c.issue_queue);
    insn_queue = refl;
    window = refl;
    lsu = refl;
    back = λ n xs v. v;
    same = λ p. (refl, refl);
    may = λ p. refl;
  }
  insn_to_issue_queues-Queued (op ∷ first) c =
      let q = queue_one-Queued c op in
      let r = insn_to_issue_queues-Queued first (queue_one info c op) in
      record {
        issue_queue = r.issue_queue ∙ append_assoc c.issue_queue (op ∷ []) first;
        insn_queue = r.insn_queue;
        window = r.window;
        lsu = r.lsu ∙ q.lsu;
        back = λ n xs v. r.back n xs (q.back n xs v);
        same = λ p. ((r.same p).0 ∙ (q.same p).0, (r.same p).1 ∙ (q.same p).1);
        may = λ p. r.may p ∙ q.may p;
      }

IsRising-same :
    (ops ops' : Ops) (n : ℕ) (queue : List ℕ)
    → ((p : ℕ) → ((ops' p).dyn_id ≡ (ops p).dyn_id) × ((ops' p).status ≡ (ops p).status))
    → IsRising ops n queue
    → IsRising ops' n queue
IsRising-same ops ops' n [] same h = tt
IsRising-same ops ops' n (p ∷ queue) same (le, new, h) = (
  omega (arith, (same p).0, le),
  (same p).1 ∙ new,
  subst (λ k. IsRising ops' k queue) (ap (λ k. k + 1) (sym (same p).0))
      (IsRising-same ops ops' ((ops p).dyn_id + 1) queue same h),
)

Stops-same :
    (c c' : Core) (queue : List ℕ)
    → ((p : ℕ) → may_dispatch c' p ≡ may_dispatch c p)
    → Stops c queue
    → Stops c' queue
Stops-same c c' [] same h = tt
Stops-same c c' (op ∷ queue) same h = same op ∙ h

status_same :
    (ops ops' : Ops) (first : List ℕ)
    → ((p : ℕ) → ((ops' p).dyn_id ≡ (ops p).dyn_id) × ((ops' p).status ≡ (ops p).status))
    → All (λ p. (ops p).status ≡ allocated) first
    → All (λ p. (ops' p).status ≡ allocated) first
status_same ops ops' first same h = All-map _ _ first (λ p e. (same p).1 ∙ e) h

-- What `dispatch` promises: `first` leaves the instruction queue, in order, for the reorder buffer, the
-- load and store queues and the issue queue.
pub record Dispatches (c : Core) (xs first : List ℕ) (c' : Core) : Type 0 where
  pub split : c.insn_queue ≡ first ++ c'.insn_queue
  pub issue_queue : c'.issue_queue ≡ c.issue_queue ++ first
  pub bound : ℕ
  pub back : IsBack c' bound (xs ++ first)
  pub rising : IsRising c'.ops bound c'.insn_queue
  pub status : All (λ p. (c'.ops p).status ≡ allocated) first
  pub used : c'.window.issue_queue_used ≡ c.window.issue_queue_used + length first
  pub kept : Keeps c.lsu c'.lsu
  pub entered : Entered c.ops c'.lsu first
  pub stop :
      (length first ≡ c.window.window_size)
      ⊎ ((length first < c.window.window_size) × Stops c' c'.insn_queue)

-- Where the buffers are well formed and hold numbers below `n`, and the operations of the instruction
-- queue are new with numbers that rise from `n`, `dispatch` fails no assertion. A first part of the
-- queue, in order and of at most the window size, moves to the end of the reorder buffer and of the
-- issue queue, each of its loads and stores has an entry of the load or store queue, which keep the
-- entries that they had, and each is allocated and counted. The buffers
-- stay well formed, and what is left of the instruction queue is as it has to be for the next cycle.
-- The dispatch stops before the window size only where the queue is empty or the next operation finds
-- no room.
pub dispatch-Enters :
    (info : ℕ → StaticInsn) (c : Core) (n : ℕ) (xs : List ℕ)
    → IsBack c n xs
    → IsRising c.ops n c.insn_queue
    → (c' : Core) × (first : List ℕ) × (dispatch info c ≡ some c') × Dispatches c xs first c'
unfolding dispatch may_dispatch
dispatch-Enters info c n xs v h =
    let (c1, rest, first, runs, split, d) =
      dispatch_up_to-Dispatched c.window.window_size c n xs c.insn_queue [] v h in
    let c2 = record c1 { insn_queue = rest } in
    let c' = insn_to_issue_queues info first c2 in
    let q = insn_to_issue_queues-Queued info first c2 in
    let left : c'.insn_queue ≡ rest = q.insn_queue in
    let b = d.back in
    (
      c',
      first,
      rw runs refl,
      record {
        split = split ∙ ap (λ l. first ++ l) (sym left);
        issue_queue = q.issue_queue ∙ ap (λ l. l ++ first) d.issue_queue;
        bound = d.bound;
        back = q.back d.bound (xs ++ first) (record {
          ring = b.ring;
          units = b.units;
          below = b.below;
          loads = b.loads;
          stores = b.stores;
        });
        rising =
            subst (IsRising c'.ops d.bound) (sym left)
              (IsRising-same c1.ops c'.ops d.bound rest q.same d.rising);
        status = status_same c1.ops c'.ops first q.same d.status;
        used = ap (λ (w : Window). w.issue_queue_used) q.window ∙ d.used;
        kept = subst (Keeps c.lsu) (sym q.lsu) d.kept;
        entered = subst (λ u. Entered c.ops u first) (sym q.lsu) d.entered;
        stop = elim d.stop [
          | inl all ↦ inl all
          | inr (lt, why) ↦ inr (lt, subst (Stops c') (sym left) (Stops-same c1 c' rest q.may why))
        ];
      },
    )
