-- ===== src/Tage/Valid.antt =====
-- What the TAGE predictor (sim/src/tage/tage.cpp) may store, and writes to one of its tables or counters.
use cisim.Prelude.{ℕ, ◌*◌, ◌^◌, ◌≤◌, ◌<◌, Bool, arith, Bool-cases, inl, inr, ◌==◌, update}
use cisim.Prelude.Bits.{pow_pos}
use cisim.Tage.{
  Predictor, TagEntry, CompressedHist, init, set_current, sat_increment, sat_decrement,
}
use cisim.Tage.Predict.{look_up, choose}

-- A 3-bit counter and a 2-bit useful counter.
abbrev pub IsEntry : TagEntry → Type 0
IsEntry e = (e.ctr ≤ 7) × (e.useful_bits ≤ 3)

abbrev pub IsFolded : CompressedHist → Type 0
IsFolded c = c.comp_hist < 2 ^ c.target_length

pub record IsValid (p : Predictor) : Type 0 where
  pub bimodal : (i : ℕ) → p.bimodal i ≤ 3
  pub entries : (bank i : ℕ) → IsEntry (p.tag_pred bank i)
  pub better : p.alt_better_count ≤ 15
  pub history : p.ghr < 2 ^ 131
  pub path : p.phr < 2 ^ 16
  pub clock : p.clock < 256 * 1024
  pub index : (i : ℕ) → IsFolded (p.index_comp i)
  pub tags : (j i : ℕ) → IsFolded (p.tag_comp j i)

pub sat_increment-le : (v m : ℕ) → v ≤ m → sat_increment v m ≤ m
unfolding sat_increment
sat_increment-le v m h = ground arith

pub sat_decrement-le : (v m : ℕ) → v ≤ m → sat_decrement v ≤ m
unfolding sat_decrement
sat_decrement-le v m h = ground arith

pub update-all {ℓ κ} :
    {A : Type ℓ} (P : A → Type κ) (f : ℕ → A) (i : ℕ) (v : A)
    → ((j : ℕ) → P (f j))
    → P v
    → (j : ℕ) → P (update f i v j)
update-all P f i v h p j = elim (Bool-cases (i == j)) [ inl e ↦ rw e p | inr e ↦ rw e (h j) ]

set_current-IsEntry :
    (p : Predictor) (bank : ℕ) (e : TagEntry)
    → ((b i : ℕ) → IsEntry (p.tag_pred b i))
    → IsEntry e
    → (b i : ℕ) → IsEntry ((set_current p bank e).tag_pred b i)
set_current-IsEntry p bank e h v =
    update-all (λ (f : ℕ → TagEntry). (i : ℕ) → IsEntry (f i)) p.tag_pred bank
      (update (p.tag_pred bank) (p.index_tag_pred bank) e) h
      (update-all IsEntry (p.tag_pred bank) (p.index_tag_pred bank) e (h bank) v)

pub init-IsValid : IsValid init
unfolding init
init-IsValid = record {
  bimodal = λ i. omega arith;
  entries = λ bank i. omega arith;
  better = omega arith;
  history = omega arith;
  path = omega arith;
  clock = omega arith;
  index = λ i. omega arith;
  tags = λ j i. pow_pos _;
}

pub look_up-IsValid : (p : Predictor) (pc : ℕ) → IsValid p → IsValid (look_up p pc)
unfolding look_up
look_up-IsValid p pc v = record {
  bimodal = v.bimodal;
  entries = v.entries;
  better = v.better;
  history = v.history;
  path = v.path;
  clock = v.clock;
  index = v.index;
  tags = v.tags;
}

-- The lookup moves no counter and no history.
pub choose-IsValid : (p : Predictor) (base : Bool) → IsValid p → IsValid (choose p base).0
unfolding choose
choose-IsValid p base v = record {
  bimodal = λ i. ground (arith, v.bimodal i);
  entries = λ bank i. ground (arith, v.entries bank i);
  better = ground arith;
  history = ground arith;
  path = ground arith;
  clock = ground arith;
  index = λ i. ground (arith, v.index i);
  tags = λ j i. ground (arith, v.tags j i);
}

pub entries-IsValid :
    (p : Predictor) (t : ℕ → ℕ → TagEntry)
    → IsValid p
    → ((bank i : ℕ) → IsEntry (t bank i))
    → IsValid (record p { tag_pred = t })
entries-IsValid p t v h = record {
  bimodal = v.bimodal;
  entries = h;
  better = v.better;
  history = v.history;
  path = v.path;
  clock = v.clock;
  index = v.index;
  tags = v.tags;
}

pub bimodal-IsValid :
    (p : Predictor) (t : ℕ → ℕ)
    → IsValid p
    → ((i : ℕ) → t i ≤ 3)
    → IsValid (record p { bimodal = t })
bimodal-IsValid p t v h = record {
  bimodal = h;
  entries = v.entries;
  better = v.better;
  history = v.history;
  path = v.path;
  clock = v.clock;
  index = v.index;
  tags = v.tags;
}

pub better-IsValid :
    (p : Predictor) (n : ℕ) → IsValid p → n ≤ 15 → IsValid (record p { alt_better_count = n })
better-IsValid p n v h = record {
  bimodal = v.bimodal;
  entries = v.entries;
  better = h;
  history = v.history;
  path = v.path;
  clock = v.clock;
  index = v.index;
  tags = v.tags;
}

pub set_current-IsValid :
    (p : Predictor) (bank : ℕ) (e : TagEntry)
    → IsValid p
    → IsEntry e
    → IsValid (set_current p bank e)
set_current-IsValid p bank e v h = entries-IsValid p _ v (set_current-IsEntry p bank e v.entries h)
