-- ===== src/Operation/Modify.antt =====
-- Writes through the pointers of operations (sim/include/task/dyn_insn.h).
use cisim.Prelude.{ℕ, ◌≡◌, refl, sym, subst, ◌==◌, ==_refl, ==_iff, false, Bool-cases, inl, inr}
use cisim.Operation.{Operation, Ops, modify}

module _ (ops : Ops) (p : ℕ) (f : Operation → Operation) where
  pub modify_here : modify ops p f p ≡ f (ops p)
  modify_here = rw (==_refl p) refl

  pub modify_there : (q : ℕ) → (p == q) ≡ false → modify ops p f q ≡ ops q
  modify_there q away = rw away refl

  -- What the write keeps holds of every operation that it held of.
  pub modify-holds {κ} :
      (P : Operation → Type κ)
      → ((o : Operation) → P o → P (f o))
      → (q : ℕ) → P (ops q)
      → P (modify ops p f q)
  modify-holds P step q h = elim (Bool-cases (p == q)) [
    | inl here ↦
        let same : p ≡ q = (==_iff p q).0 here in
        subst (λ (z : ℕ). P (modify ops p f z)) same
          (subst P (sym modify_here) (step (ops p) (subst (λ (z : ℕ). P (ops z)) (sym same) h)))
    | inr away ↦ subst P (sym (modify_there q away)) h
  ]
