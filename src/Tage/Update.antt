-- ===== src/Tage/Update.antt =====
-- `PREDICTOR::UpdatePredictor` (sim/src/tage/tage.cpp), in the order of its parts. `rand_no` is the
-- value of `rand() % 100`.
use cisim.Prelude.{
  ℕ, zero, suc, ◌+◌, ◌-◌, ◌*◌, Bool, not, ◌&&◌, ◌||◌, same, ltb, leb, ◌==◌, if◌then◌else◌, bit_and,
  Option, none, some, update,
}
use cisim.Tage.{
  Predictor, bimodal_ctr_max, tagpred_ctr_max, num_tag_tables, current, set_current, sat_increment,
  sat_decrement,
}
use cisim.Tage.Predict.{bimodal_index}
use cisim.Tage.History.{u32, update_history}

-- The useful counter moves only where the final prediction differs from the alternate one.
abbrev pub train_useful : Bool → Bool → Bool → ℕ → ℕ
train_useful pred_dir alt_pred resolve_dir useful =
    if same pred_dir alt_pred
    then useful
    else if same pred_dir resolve_dir
    then sat_increment useful bimodal_ctr_max
    else sat_decrement useful

-- Trains the counters that gave the prediction.
unfoldable pub train : Predictor → ℕ → Bool → Bool → Predictor
train p pc resolve_dir pred_dir =
    let e = current p p.prime_bank in
    let b = p.bimodal (bimodal_index pc) in
    if ltb p.prime_bank num_tag_tables
    then set_current p p.prime_bank (record e {
      useful_bits = train_useful pred_dir p.alt_pred resolve_dir e.useful_bits;
      ctr = if resolve_dir then sat_increment e.ctr tagpred_ctr_max else sat_decrement e.ctr;
    })
    else record p {
      bimodal =
          update p.bimodal (bimodal_index pc)
            (if resolve_dir then sat_increment b bimodal_ctr_max else sat_decrement b);
    }

-- The entry that gave the prediction is fresh: not useful yet, and its counter is weak.
abbrev pub new_entry : Predictor → Bool
new_entry p =
    ltb p.prime_bank num_tag_tables
    && ((current p p.prime_bank).useful_bits == 0)
    && (((current p p.prime_bank).ctr == 3) || ((current p p.prime_bank).ctr == 4))

unfoldable pub weigh_alternate : Predictor → Bool → Predictor
weigh_alternate p resolve_dir =
    if new_entry p && not (same p.prime_pred p.alt_pred)
    then (if same p.alt_pred resolve_dir
        then record p {
          alt_better_count =
              if ltb p.alt_better_count 15 then p.alt_better_count + 1 else p.alt_better_count;
        }
        else record p {
          alt_better_count =
              if ltb 0 p.alt_better_count then p.alt_better_count - 1 else p.alt_better_count;
        })
    else p

-- `usefulBits == 0` of the bank's current entry.
abbrev pub is_free : Predictor → ℕ → Bool
is_free p i = (current p i).useful_bits == 0

-- How many of the banks below `n` are free: `count`, and `strong_old_present` where it is not 0.
unfoldable pub count_free : Predictor → ℕ → ℕ
count_free p zero = 0
count_free p (suc i) = count_free p i + (if is_free p i then 1 else 0)

-- `usefulBits--` at each bank below `n`; it runs only where none of them is 0.
unfoldable pub age : Predictor → ℕ → Predictor
age p zero = p
age p (suc i) =
    let e = current p i in age (set_current p i (record e { useful_bits = e.useful_bits - 1 })) i

-- `bank_store[k]`, `none` for the -1 that the array starts with.
abbrev pub bank_store : Predictor → ℕ → Option ℕ
bank_store p k = if ltb k p.prime_bank && is_free p k then some k else none

-- `matchBank`
unfoldable pub match_bank : Predictor → ℕ → Option ℕ
match_bank p rand_no =
    let count = count_free p p.prime_bank in
    if count == 1
    then bank_store p 0
    else if ltb 1 count
    then (if ltb 33 rand_no && leb rand_no 99
        then bank_store p (count - 1)
        else bank_store p (count - 2))
    else some 0

-- `for (i = n - 1; i > -1; i--)`: the first free bank going down gets the new entry.
unfoldable pub allocate_down : Predictor → Bool → ℕ → Predictor
allocate_down p resolve_dir zero = p
allocate_down p resolve_dir (suc i) =
    if is_free p i
    then set_current p i
        (record { ctr = if resolve_dir then 4 else 3; tag = p.tag i; useful_bits = 0 })
    else allocate_down p resolve_dir i

-- From `matchBank` down; there is no round at -1.
abbrev pub allocate_at : Predictor → Bool → Option ℕ → Predictor
allocate_at p resolve_dir none = p
allocate_at p resolve_dir (some bank) = allocate_down p resolve_dir (suc bank)

-- The test of the allocation part.
abbrev pub wants_entry : Predictor → Bool → Bool → Bool → Bool
wants_entry p fresh resolve_dir pred_dir =
    (not fresh || not (same p.prime_pred resolve_dir))
    && (not (same pred_dir resolve_dir) && ltb 0 p.prime_bank)

-- `fresh` is `new_entry`, which was set before the alternate counter moved.
unfoldable pub allocate : Predictor → Bool → Bool → Bool → ℕ → Predictor
allocate p fresh resolve_dir pred_dir rand_no =
    if wants_entry p fresh resolve_dir pred_dir
    then (if count_free p p.prime_bank == 0
        then age p p.prime_bank
        else allocate_at p resolve_dir (match_bank p rand_no))
    else p

-- Every 256 K branches one of the two useful bits of every entry is cleared.
unfoldable pub tick : Predictor → Predictor
tick p =
    let flip = if p.clock_flip == 1 then 0 else 1 in
    let kept = if flip == 1 then 1 else 2 in
    if u32 (p.clock + 1) == 256 * 1024
    then record p {
      clock = 0;
      clock_flip = flip;
      tag_pred = λ bank i. record (p.tag_pred bank i) {
        useful_bits = bit_and (p.tag_pred bank i).useful_bits kept;
      };
    }
    else record p { clock = u32 (p.clock + 1) }

unfoldable pub update_predictor : Predictor → ℕ → Bool → Bool → ℕ → Predictor
update_predictor p pc resolve_dir pred_dir rand_no =
    let trained = train p (u32 pc) resolve_dir pred_dir in
    let weighed = weigh_alternate trained resolve_dir in
    let allocated = allocate weighed (new_entry trained) resolve_dir pred_dir rand_no in
    update_history (tick allocated) (u32 pc) resolve_dir
