-- ===== src/Tage/History.antt =====
-- The history registers: `CompressedHist::updateCompHist` (sim/include/tage/tage.h) and the end of
-- `PREDICTOR::UpdatePredictor` (sim/src/tage/tage.cpp).
use cisim.Prelude.{
  ℕ, ◌+◌, ◌-◌, ◌*◌, ◌/◌, ◌%◌, ◌^◌, Bool, if◌then◌else◌, to_bit, ◌==◌, bit_and, bit_xor,
}
use cisim.Tage.{CompressedHist, Predictor}

-- `ghr[i]`
abbrev pub history_bit : ℕ → ℕ → ℕ
history_bit ghr i = ghr / 2 ^ i % 2

-- A `uint32_t` wraps.
abbrev pub u32 : ℕ → ℕ
u32 n = n % 2 ^ 32

unfoldable pub update_comp_hist : ℕ → CompressedHist → CompressedHist
update_comp_hist ghr c =
    let mask = 2 ^ c.target_length - 1 in
    let mask1 = u32 (history_bit ghr c.geom_length * 2 ^ (c.geom_length % c.target_length)) in
    let mask2 = 2 ^ c.target_length in
    let shifted = u32 (u32 (c.comp_hist * 2) + history_bit ghr 0) in
    let wrapped = bit_xor shifted (bit_and shifted mask2 / 2 ^ c.target_length) in
    record c { comp_hist = bit_and (bit_xor wrapped mask1) mask }

-- `GHR << 1` drops the oldest of the 131 bits and leaves bit 0 clear, which `set(0, 1)` sets.
unfoldable pub next_ghr : ℕ → Bool → ℕ
next_ghr ghr resolve_dir = ghr * 2 % 2 ^ 131 + to_bit resolve_dir

unfoldable pub next_phr : ℕ → ℕ → ℕ
next_phr phr pc = bit_and (phr * 2 + (if bit_and pc 1 == 1 then 1 else 0)) (2 ^ 16 - 1)

unfoldable pub update_history : Predictor → ℕ → Bool → Predictor
update_history p pc resolve_dir =
    let ghr = next_ghr p.ghr resolve_dir in
    record p {
      ghr = ghr;
      phr = next_phr p.phr pc;
      index_comp = λ i. update_comp_hist ghr (p.index_comp i);
      tag_comp = λ j i. update_comp_hist ghr (p.tag_comp j i);
    }
