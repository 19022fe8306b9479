-- ===== src/Operation/Life.antt =====
-- The life of an operation (`updateStatus` of sim/src/task/dyn_insn.cpp).
use cisim.Prelude.{ℕ, zero, suc, ◌≡◌, refl, min, arith}
use cisim.Operation.{
  Operation, Status, init, allocated, ready, issued, executing, finished, commited, sleep, rank,
  next_status, update_status, reset,
}

abbrev times : ℕ → Operation → Operation
times zero o = o
times (suc n) o = update_status (times n o)

rank-next_status :
    (s : Status) → rank s ≡ min (rank s) 6 → rank (next_status s) ≡ min (suc (rank s)) 6
rank-next_status init h = refl
rank-next_status allocated h = refl
rank-next_status ready h = refl
rank-next_status issued h = refl
rank-next_status executing h = refl
rank-next_status finished h = refl
rank-next_status commited h = refl
rank-next_status sleep h = absurd (omega (arith, h))

-- After a reset, n status updates bring an operation to the n-th status in the order of the
-- enumeration, and no further than COMMITED: it is never put to sleep by them.
rank-times : (n : ℕ) (o : Operation) → rank (times n (reset o)).status ≡ min n 6
unfolding update_status reset
rank-times zero o = refl
rank-times (suc n) o =
    let before = rank-times n o in
    omega (arith, before, rank-next_status (times n (reset o)).status (omega (arith, before)))
