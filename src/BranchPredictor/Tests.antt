-- ===== src/BranchPredictor/Tests.antt =====
-- The branch predictor on concrete inputs, and its theorems at them.
use cisim.Prelude.{◌≡◌, refl, true, false, some, arith, set}
use cisim.BranchPredictor.{Bpred, bp_twobit, bp_gshare, init, predict, predict_counter}
use cisim.BranchPredictor.Valid.{IsValid, Keeps, predict-Keeps, init-IsValid}
use cisim.BranchPredictor.Learning.{third_verdict, twobit_learns}

abbrev gshare : Bpred
gshare = init bp_gshare 16 4

abbrev twobit : Bpred
twobit = init bp_twobit 16 0

init-IsValid_example : IsValid gshare
init-IsValid_example = init-IsValid bp_gshare 16 4 (omega arith) (omega arith)

predict-Keeps_example :
    Keeps (λ b'. IsValid b' × (b'.type ≡ gshare.type)) (predict gshare 1027 true 0)
predict-Keeps_example =
    predict-Keeps gshare 1027 true 0 (init-IsValid bp_gshare 16 4 (omega arith) (omega arith))

twobit_learns_example : third_verdict twobit 1027 false 0 ≡ some true
unfolding init
twobit_learns_example =
    twobit_learns twobit 1027 false 0 refl (init-IsValid bp_twobit 16 0 (omega arith) (omega arith))

-- Counters start weakly taken, so the first not-taken branch is mispredicted.
twobit_first : predict twobit 5 false 0 ≡ some (record twobit { bht = set twobit.bht 5 1 }, false)
unfolding predict predict_counter init
twobit_first = refl
