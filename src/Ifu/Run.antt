-- ===== src/Ifu/Run.antt =====
-- What `IFU::IF1` (sim/src/ifu.cpp) hands to the instruction queue.
use cisim.Prelude.{
  ℕ, zero, suc, ◌+◌, ◌≤◌, ◌<◌, ◌≡◌, ◌≢◌, ◌⊎◌, inl, inr, refl, sym, ap, subst, ◌∙◌, arith, true,
  false, Bool-cases, ◌==◌, List, [], ◌∷◌, ◌++◌, length, length-append, some,
}
use mathlib.Core.List.{append-nil, append_assoc}
use cisim.Operation.{Ops}
use cisim.MemTransaction.{MemTransaction}
use cisim.Ifu.{Ifu, take_run, deliver, if1}

module _ (ops : Ops) (uid : ℕ → ℕ) where
  -- The numbers of the operations follow on one another from `next`.
  abbrev pub IsRun : ℕ → List ℕ → Type 0
  IsRun next [] = Unit
  IsRun next (op ∷ run) = (uid op ≡ next) × IsRun (next + 1) run

  -- The next operation does not carry the run on.
  abbrev pub Breaks : ℕ → List ℕ → Type 0
  Breaks next [] = Unit
  Breaks next (op ∷ rest) = uid op ≢ next

  -- The longest run at the front, up to `n` operations, goes to the end of the queue.
  abbrev pub TakesRun : ℕ → ℕ → List ℕ → List ℕ → List ℕ → List ℕ → Type 0
  TakesRun n next processed queue processed' queue' =
      (run : List ℕ) × (processed ≡ run ++ processed')
      × (queue' ≡ queue ++ run)
      × IsRun next run
      × (length run ≤ n)
      × ((length run ≡ n) ⊎ Breaks (next + length run) processed')

  take_run-TakesRun :
      (n next : ℕ) (processed queue : List ℕ)
      → TakesRun n next processed queue
          (take_run ops uid n next processed queue).0
          (take_run ops uid n next processed queue).1
  unfolding take_run
  take_run-TakesRun zero next processed queue =
      ([], refl, sym (append-nil queue), tt, omega arith, inl refl)
  take_run-TakesRun (suc n) next [] queue =
      ([], refl, sym (append-nil queue), tt, omega arith, inr tt)
  take_run-TakesRun (suc n) next (op ∷ processed) queue = elim (Bool-cases (uid op == next)) [
    | inl same ↦
        let (run, left, right, is_run, short, stop) =
          take_run-TakesRun n (next + 1) processed (queue ++ op ∷ []) in
        let shift : next + 1 + length run ≡ next + suc (length run) = omega arith in
        rw same (
          op ∷ run,
          ap (λ xs. op ∷ xs) left,
          right ∙ append_assoc queue (op ∷ []) run,
          (ground (arith, same), is_run),
          omega (arith, short),
          elim stop [
            | inl all ↦ inl (ap suc all)
            | inr breaks ↦ inr (
                subst (λ k. Breaks k (take_run ops uid n (next + 1) processed (queue ++ op ∷ [])).0)
                  shift breaks)
          ],
        )
    | inr other ↦ rw other (
      [],
      refl,
      sym (append-nil queue),
      tt,
      omega arith,
      inr (λ h. absurd (ground (arith, h, other))),
    )
  ]

  front_matches : (m n : ℕ) → m ≡ n → (m == n) ≡ true
  front_matches m n e = ground arith

  run_positive :
      (n next front : ℕ) (processed run left : List ℕ)
      → uid front ≡ next
      → 0 < n
      → front ∷ processed ≡ run ++ left
      → (length run ≡ n) ⊎ Breaks (next + length run) left
      → 0 < length run
  run_positive n next front processed (op ∷ run) left same positive parts stop = omega arith
  run_positive n next front processed [] left same positive parts stop = elim stop [
    | inl all ↦ omega arith
    | inr breaks ↦
        let broken : Breaks (next + 0) (front ∷ processed) =
          subst (Breaks (next + 0)) (sym parts) breaks in
        absurd (broken (omega (arith, same)))
  ]

  -- Where the response is to an operation that is not squashed and the oldest processed operation has
  -- its number, `IF1` fails no assertion. It moves the longest run of operations at the front whose
  -- numbers follow on one another, one at least and a package at most, to the end of the instruction
  -- queue, and the unit is ready for the next request.
  pub if1-TakesRun :
      (u : Ifu) (resp : MemTransaction) (op front : ℕ) (processed queue : List ℕ)
      → u.responses ≡ resp ∷ []
      → resp.op ≡ some op
      → (ops op).is_squashed ≡ false
      → uid front ≡ uid op
      → 0 < u.package_size
      → (u' : Ifu) × (processed' : List ℕ) × (queue' : List ℕ) × (if1 ops uid u
            (front ∷ processed)
            queue
          ≡ some (u', processed', queue'))
        × TakesRun u.package_size (uid op) (front ∷ processed) queue processed' queue'
        × (length queue < length queue')
        × (u'.responses ≡ [])
        × (u'.occupied ≡ false)
  unfolding if1 deliver
  if1-TakesRun u resp op front processed queue one to live same positive =
      let (run, left, right, is_run, short, stop) =
        take_run-TakesRun u.package_size (uid op) (front ∷ processed) queue in
      let some_taken =
        run_positive u.package_size (uid op) front processed run _ same positive left stop in
      let r = take_run ops uid u.package_size (uid op) (front ∷ processed) queue in
      (
        record u { responses = []; occupied = false },
        r.0,
        r.1,
        simp (one, to, live, front_matches (uid front) (uid op) same),
        (run, left, right, is_run, short, stop),
        omega (arith, ap length right, length-append queue run, some_taken),
        refl,
        refl,
      )
