-- ===== src/Window/Pop.antt =====
-- The ring of the reorder buffer (sim/src/window.cpp) without the operation at its head.
use cisim.Prelude.{
  ℕ, suc, ◌+◌, ◌-◌, ◌%◌, ◌≤◌, ◌<◌, ◌≡◌, sym, ap, ◌∙◌, arith, inl, inr, true, List, ◌∷◌, length-set,
  get_elem?, get_elem?-lt, get_elem?-set_ne, get_elem?-set_cases, set, some,
}
use cisim.Prelude.Dict.{lookup}
use cisim.Operation.{Ops}
use cisim.Window.{RobEntry, Window}
use cisim.Window.Ring.{IsRing, wrap, wrap_lem, entry}

-- The window without the operation at its head, with new counters.
abbrev pub popped : Window → ℕ → ℕ → ℕ → ℕ → ℕ → Window
popped w op commits predicts misses slots = record w {
  rob = set w.rob w.rob_head (record { op = op; empty = true });
  rob_head = (w.rob_head + 1) % w.rob_size;
  rob_used = w.rob_used - 1;
  total_commit = commits;
  total_predict_num = predicts;
  mispredict_num = misses;
  rb_not_retire_slot = slots;
}

-- The numbers and kinds of the operations are the same.
abbrev pub SameIds : Ops → Ops → Type 0
SameIds ops ops' = (p : ℕ) → ((ops' p).dyn_id ≡ (ops p).dyn_id) × ((ops' p).kind ≡ (ops p).kind)

module _ (ops ops' : Ops) (w : Window) (op : ℕ) (xs : List ℕ) (commits predicts misses slots : ℕ)
    (v : IsRing ops w (op ∷ xs)) (same : SameIds ops ops') where
  next : Window
  next = popped w op commits predicts misses slots

  head_next : (w.rob_head + 1) % w.rob_size ≡ wrap w.rob_size (w.rob_head + 1)
  head_next = wrap_lem w.rob_size (w.rob_head + 1) (omega (arith, v.head_in))

  slot_next :
      (k : ℕ)
      → k < w.rob_size
      → wrap w.rob_size ((w.rob_head + 1) % w.rob_size + k) ≡ wrap w.rob_size (w.rob_head + suc k)
  slot_next k lt = ap (λ (h : ℕ). wrap w.rob_size (h + k)) head_next ∙ ground (arith, v.head_in, lt)

  popped-taken :
      (k p : ℕ)
      → get_elem? xs k ≡ some p
      → get_elem?
          (popped w op commits predicts misses slots).rob
          (wrap w.rob_size ((w.rob_head + 1) % w.rob_size + k))
        ≡ some (entry p)
  popped-taken k p e =
      let lt : suc k < w.rob_size + 1 = omega (arith, get_elem?-lt xs k p e, v.used, v.fits) in
      ap (get_elem? (set w.rob w.rob_head (record { op = op; empty = true })))
        (slot_next k (omega (arith, lt)))
      ∙ get_elem?-set_ne w.rob w.rob_head (wrap w.rob_size (w.rob_head + suc k))
          (record { op = op; empty = true })
          (ground (arith, v.head_in, get_elem?-lt xs k p e, v.used, v.fits))
      ∙ v.taken (suc k) p e

  popped-free :
      (k : ℕ) (e : RobEntry)
      → w.rob_used - 1 ≤ k
      → k < w.rob_size
      → get_elem?
          (popped w op commits predicts misses slots).rob
          (wrap w.rob_size ((w.rob_head + 1) % w.rob_size + k))
        ≡ some e
      → e.empty ≡ true
  popped-free k e le lt read =
      let r =
        sym (
          ap (get_elem? (set w.rob w.rob_head (record { op = op; empty = true }))) (slot_next k lt))
        ∙ read in
      elim (get_elem?-set_cases w.rob w.rob_head (wrap w.rob_size (w.rob_head + suc k))
        (record { op = op; empty = true }) e r) [
          | inl (at, new) ↦ sym (ap (λ (x : RobEntry). x.empty) new)
          | inr (away, old) ↦
              v.free (suc k) e (omega (arith, le)) (ground (arith, away, v.head_in, lt)) old
        ]

  pub popped-IsRing : IsRing ops' (popped w op commits predicts misses slots) xs
  popped-IsRing = record {
    width = length-set w.rob w.rob_head (record { op = op; empty = true }) ∙ v.width;
    head_in = ground (arith, head_next, v.head_in);
    used = omega (arith, v.used);
    fits = omega (arith, v.fits);
    tail_at = v.tail_at ∙ ground (arith, head_next, v.head_in, v.used, v.fits);
    taken = popped-taken;
    free = popped-free;
    sorted = v.sorted;
    one_key = v.one_key;
    mapped = λ k p e.
        ap (λ (d : ℕ). lookup d w.op_entry_map) (same p).0
        ∙ v.mapped (suc k) p e
        ∙ ap some (sym (slot_next k (omega (arith, get_elem?-lt xs k p e, v.used, v.fits))));
  }
