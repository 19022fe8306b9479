-- ===== src/DyserUnit/Start.antt =====
-- The instructions that start in a cycle (the second loop of `DyserUnit::processQueue` of
-- sim/src/accel.cpp).
use cisim.Prelude.{
  ℕ, ◌+◌, ◌≡◌, inl, inr, refl, sym, ap, subst, ◌∙◌, arith, Bool, true, false, not, ◌&&◌, Bool-cases,
  Option-cases, ◌⊎◌, ◌==◌, ==_iff, ==_refl, if◌then◌else◌, List, [], ◌∷◌, ◌++◌, All, All-map, some,
}
use cisim.Prelude.Dict.{lookup, lookup-insert}
use cisim.Prelude.Dict
use cisim.PriorityQueue.{tally, tally-append}
use cisim.Operation.{Ops}
use cisim.DyserUnit.{DyserUnit, Fifo, has, value_of, is_active, is_empty, start_insn, start_all}
use cisim.DyserUnit.Tokens.{
  HasInput, is_some, check_data_ready-Ready, check_data_ready-none, Takes, take_tokens-Takes,
}

-- The tokens of an instruction on an input.
abbrev pub tokens : ℕ → ℕ → DyserUnit → ℕ
tokens p k u = value_of k (u.internal_fifo_per_insn p)

abbrev pub has_input : ℕ → ℕ → DyserUnit → Bool
has_input p k u = is_some (lookup k (u.internal_fifo_per_insn p))

-- Each instruction has an input for all that it depends on.
abbrev pub IsWired : Ops → DyserUnit → Type 0
IsWired ops u = (p : ℕ) → All (λ k. has_input p k u ≡ true) (ops p).dyn_deps

-- What the start of `q` takes of input `k` of `p`.
abbrev pub taken_by : Ops → ℕ → ℕ → ℕ → ℕ
taken_by ops p k q = if q == p && has k (ops p).dyn_deps then 1 else 0

inputs :
    (fifo : Fifo) (deps : List ℕ)
    → All (λ k. is_some (lookup k fifo) ≡ true) deps
    → All (HasInput fifo) deps
inputs fifo [] h = tt
inputs fifo (k ∷ deps) (e, h) = elim (Option-cases (lookup k fifo)) [
  | inl out ↦ absurd (cc (e, ap is_some out))
  | inr found ↦ (found, inputs fifo deps h)
]

All-append : (P : ℕ → Type 0) (xs ys : List ℕ) → All P xs → All P ys → All P (xs ++ ys)
All-append P [] ys h k = k
All-append P (x ∷ xs) ys (p, h) k = (p, All-append P xs ys h k)

-- The map once all of a list have started, in order.
abbrev pub with_started : (ℕ → ℕ) → List ℕ → List (ℕ × ℕ) → List (ℕ × ℕ)
with_started uid [] m = m
with_started uid (op ∷ started) m = with_started uid started (Dict.insert (uid op) op m)

with_started-append :
    (uid : ℕ → ℕ) (first later : List ℕ) (m : List (ℕ × ℕ))
    → with_started uid (first ++ later) m ≡ with_started uid later (with_started uid first m)
with_started-append uid [] later m = refl
with_started-append uid (op ∷ first) later m =
    with_started-append uid first later (Dict.insert (uid op) op m)

module _ (uid : ℕ → ℕ) (ops : Ops) where
  -- The instructions `started` take one token of each of their inputs. None of them was in flight, and
  -- all are.
  pub record Starts (u : DyserUnit) (started : List ℕ) (u' : DyserUnit) : Type 0 where
    pub balance : (p k : ℕ) → tokens p k u' + tally (taken_by ops p k) started ≡ tokens p k u
    pub inputs_kept : (p k : ℕ) → has_input p k u' ≡ has_input p k u
    pub output : u'.output_fifo ≡ u.output_fifo
    pub idle : All (λ q. is_active uid u q ≡ false) started
    pub running : All (λ q. is_active uid u' q ≡ true) started
    pub active : (q : ℕ) → is_active uid u q ≡ true → is_active uid u' q ≡ true
    pub flight : u'.inflight_queue ≡ with_started uid started u.inflight_queue

  -- An instruction that does not wait in vain: it is in flight, it has no inputs, or one of its inputs
  -- has no token.
  abbrev pub Rests : DyserUnit → ℕ → Type 0
  Rests u p =
      (is_active uid u p ≡ true)
      ⊎ (((ops p).dyn_deps ≡ []) ⊎ ((k : ℕ) × (has k (ops p).dyn_deps ≡ true) × (tokens p k u ≡ 0)))

  Rests-later :
      (u u' : DyserUnit) (started : List ℕ) (p : ℕ) → Starts u started u' → Rests u p → Rests u' p
  Rests-later u u' started p s h = elim h [
    | inl runs ↦ inl (s.active p runs)
    | inr (inl bare) ↦ inr (inl bare)
    | inr (inr (k, needs, out)) ↦ inr (inr (k, needs, omega (arith, s.balance p k, out)))
  ]

  -- The unit once `op` is in flight.
  abbrev begun : DyserUnit → ℕ → Fifo → DyserUnit
  begun u op fifo' = record u {
    internal_fifo_per_insn = λ p. if op == p then fifo' else u.internal_fifo_per_insn p;
    inflight_queue = Dict.insert (uid op) op u.inflight_queue;
  }

  begun-Starts :
      (u : DyserUnit) (op : ℕ) (fifo' : Fifo) (ids : List ℕ)
      → is_active uid u op ≡ false
      → Takes (u.internal_fifo_per_insn op) ids fifo'
      → ((k : ℕ) → has k ids ≡ has k (ops op).dyn_deps)
      → Starts u (op ∷ []) (begun u op fifo')
  begun-Starts u op fifo' ids idle t all =
      let u' = begun u op fifo' in
      let balance : (p k : ℕ) → tokens p k u' + tally (taken_by ops p k) (op ∷ []) ≡ tokens p k u =
        λ p k. elim (Bool-cases (op == p)) [
          | inr other ↦ rw other (omega arith)
          | inl same ↦
              let less : value_of k fifo' + (if has k (ops op).dyn_deps then 1 else 0)
                  ≡ value_of k (u.internal_fifo_per_insn op) =
                ap (λ b. value_of k fifo' + (if b then 1 else 0)) (sym (all k)) ∙ (t k).0 in
              subst (λ q. tokens q k u' + tally (taken_by ops q k) (op ∷ []) ≡ tokens q k u)
                ((==_iff op p).0 same) (rw (==_refl op) (omega (arith, less)))
        ] in
      let kept : (p k : ℕ) → has_input p k u' ≡ has_input p k u = λ p k.
        elim (Bool-cases (op == p)) [
          | inr other ↦ rw other refl
          | inl same ↦
              subst (λ q. has_input q k u' ≡ has_input q k u) ((==_iff op p).0 same)
                (rw (==_refl op) (t k).1)
        ] in
      record {
        balance = balance;
        inputs_kept = kept;
        output = refl;
        idle = (idle, tt);
        running = (ground (arith, lookup-insert (uid op) (uid op) op u.inflight_queue), tt);
        active = λ q h. ground (arith, h, lookup-insert (uid op) (uid q) op u.inflight_queue);
        flight = refl;
      }

  start_insn-Starts :
      (u : DyserUnit) (op : ℕ)
      → IsWired ops u
      → (u' : DyserUnit) × (started : List ℕ) × (start_insn uid ops u op ≡ some u')
        × Starts u started u'
        × Rests u' op
  unfolding start_insn
  start_insn-Starts u op w =
      let fifo = u.internal_fifo_per_insn op in
      let deps = (ops op).dyn_deps in
      let (ids, checks, ready) =
        check_data_ready-Ready fifo deps [] (inputs fifo deps (w op)) tt tt in
      let same : Starts u [] u = record {
        balance = λ p k. omega arith;
        inputs_kept = λ p k. refl;
        output = refl;
        idle = tt;
        running = tt;
        active = λ q h. h;
        flight = refl;
      } in
      elim (Bool-cases (not (is_active uid u op) && not (is_empty ids))) [
        | inr stays ↦ (
          u,
          [],
          rw (checks, stays) refl,
          same,
          elim (Bool-cases (is_active uid u op)) [
            | inl runs ↦ inl runs
            | inr idle ↦
                elim (check_data_ready-none fifo deps [] ids checks (ground (arith, stays, idle))) [
                  | inl (empty, bare) ↦ inr (inl bare)
                  | inr out ↦ inr (inr out)
                ]
          ],
        )
        | inl goes ↦ elim ready [
          | inl nothing ↦ absurd (ground (arith, goes, ap is_empty nothing))
          | inr (have, apart, all) ↦
              let (fifo', takes, t) = take_tokens-Takes ids fifo have apart in
              let idle : is_active uid u op ≡ false = ground (arith, goes) in
              (
                begun u op fifo',
                op ∷ [],
                rw (checks, goes, takes) refl,
                begun-Starts u op fifo' ids idle t (λ k. all k),
                inl (ground (arith, lookup-insert (uid op) (uid op) op u.inflight_queue)),
              )
        ]
      ]

  both-Starts :
      (u u1 u' : DyserUnit) (first later : List ℕ)
      → Starts u first u1
      → Starts u1 later u'
      → Starts u (first ++ later) u'
  both-Starts u u1 u' first later s r = record {
    balance = λ p k.
        omega (arith, s.balance p k, r.balance p k, tally-append (taken_by ops p k) first later);
    inputs_kept = λ p k. r.inputs_kept p k ∙ s.inputs_kept p k;
    output = r.output ∙ s.output;
    idle =
        All-append _ first later s.idle
          (All-map _ _ later (λ q e. ground (arith, e, s.active q)) r.idle);
    running =
        All-append _ first later (All-map _ _ first (λ q e. r.active q e) s.running) r.running;
    active = λ q h. r.active q (s.active q h);
    flight =
        r.flight
        ∙ ap (with_started uid later) s.flight
        ∙ sym (with_started-append uid first later u.inflight_queue);
  }

  pub start_all-Starts :
      (insns : List ℕ) (u : DyserUnit)
      → IsWired ops u
      → (u' : DyserUnit) × (started : List ℕ) × (start_all uid ops insns u ≡ some u')
        × Starts u started u'
        × All (Rests u') insns
  unfolding start_all
  start_all-Starts [] u w = (
    u,
    [],
    refl,
    record {
      balance = λ p k. omega arith;
      inputs_kept = λ p k. refl;
      output = refl;
      idle = tt;
      running = tt;
      active = λ q h. h;
      flight = refl;
    },
    tt,
  )
  start_all-Starts (op ∷ insns) u w =
      let (u1, first, runs, s, rests) = start_insn-Starts u op w in
      let w1 : IsWired ops u1 =
        λ p. All-map _ _ (ops p).dyn_deps (λ k e. s.inputs_kept p k ∙ e) (w p) in
      let (u', later, more, r, all) = start_all-Starts insns u1 w1 in
      (
        u',
        first ++ later,
        rw (start_all, runs) more,
        both-Starts u u1 u' first later s r,
        (Rests-later u1 u' later op r rests, all),
      )
