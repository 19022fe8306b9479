-- ===== src/FunctionalCache/Fields.antt =====
-- The fields of an address (`extract` of sim/src/mem/FunctionalCache.cpp) and the address made of
-- them again.
use cisim.Prelude.{
  ℕ, zero, suc, ◌+◌, ◌-◌, ◌*◌, ◌/◌, ◌%◌, ◌^◌, ◌≤◌, ◌<◌, ◌≡◌, sym, ap, ap₂, ◌∙◌, bit_and, arith,
  Bool,
}
use native.Mathlib.Nat.{
  pow-le-pow_right, mul-add-div, mul-suc, div-one, div-eq_of_lt, mod-eq_of_lt, div-lt_iff_lt-mul,
  pow-succ', mul_comm, mul_assoc, add-mul, div-add-mod', div-div-eq-div-mul,
}
use cisim.Prelude.Bits.{bit_and_shift, bit_and-mask, pow_pos, pow_add}
use cisim.CacheSet.{new_line}
use cisim.FunctionalCache.{
  FunctionalCache, extract, get_offset, get_setid, get_tag, join, one_shifted,
}

-- Where the shifted mask is all ones, the result is the digits below them.
extract_ones :
    (k w address mask : ℕ)
    → mask / 2 ^ k ≡ 2 ^ w - 1
    → bit_and address mask / 2 ^ k ≡ address / 2 ^ k % 2 ^ w
extract_ones k w address mask e =
    bit_and_shift k address mask
    ∙ ap (bit_and (address / 2 ^ k)) e
    ∙ bit_and-mask w (address / 2 ^ k)

mask_div : (p m r : ℕ) → r < p → 0 < m → (p * m - p + r) / p ≡ m - 1
mask_div p zero r h k = absurd (omega arith)
mask_div p (suc n) r h k =
    let whole : p * suc n - p + r ≡ p * n + r = omega (arith, mul-suc p n) in
    rw (whole, mul-add-div {m = p} (omega arith) n r) (omega (arith, div-eq_of_lt h))

pow_le : (k : ℕ) → k < 64 → 2 ^ k ≤ 2 ^ 63
pow_le k h = let le : k ≤ 63 = omega arith in pow-le-pow_right (omega arith) le

mask_below :
    (t p : ℕ)
    → 0 < p
    → p ≤ t
    → t ≤ 2 ^ 63
    → ((t + 2 ^ 64 - 1) % 2 ^ 64 + 2 ^ 64 - (p + 2 ^ 64 - 1) % 2 ^ 64) % 2 ^ 64 ≡ t - p
mask_below t p h k l = omega arith

mask_above :
    (over p : ℕ)
    → over < p
    → over < 2
    → p ≤ 2 ^ 63
    → ((over + 2 ^ 64 - 1) % 2 ^ 64 + 2 ^ 64 - (p + 2 ^ 64 - 1) % 2 ^ 64) % 2 ^ 64
      ≡ 2 ^ 64 - p + over
mask_above over p h k l = omega arith

shifted_in : (over k : ℕ) → k < 64 → one_shifted over k ≡ 2 ^ k
shifted_in over k h = ground arith

split_pow : (min top : ℕ) → min ≤ top → 2 ^ top ≡ 2 ^ min * 2 ^ (top - min)
split_pow min top h =
    let e : min + (top - min) ≡ top = omega arith in
    ap (λ k. 2 ^ k) (sym e) ∙ pow_add min (top - min)

pub extract_below :
    (over top min address : ℕ)
    → min ≤ top
    → top < 64
    → extract over top min address ≡ address / 2 ^ min % 2 ^ (top - min)
unfolding extract
extract_below over top min address h k =
    let min_lt : min < 64 = omega arith in
    let le : 2 ^ min ≤ 2 ^ top = pow-le-pow_right (omega arith) h in
    let p = 2 ^ min in
    let m = 2 ^ (top - min) in
    let none_below : p * m - p ≡ p * m - p + 0 = omega arith in
    rw
      (
        shifted_in over top k,
        shifted_in over min min_lt,
        mask_below (2 ^ top) p (pow_pos min) le (pow_le top k),
      )
      (extract_ones min (top - min) address (2 ^ top - p) (
        ap (λ t. (t - p) / p) (split_pow min top h)
        ∙ ap (λ t. t / p) none_below
        ∙ mask_div p m 0 (pow_pos min) (pow_pos (top - min))))

pub lt_pow : (over k : ℕ) → over < 2 → 0 < k → over < 2 ^ k
lt_pow over zero h l = absurd (omega arith)
lt_pow over (suc k) h l = omega (arith, pow-succ' 2 k, pow_pos k)

pub extract_above :
    (over min address : ℕ)
    → over < 2
    → 0 < min
    → min < 64
    → address < 2 ^ 64
    → extract over 64 min address ≡ address / 2 ^ min
unfolding extract
extract_above over min address h k l a =
    let p = 2 ^ min in
    let m = 2 ^ (64 - min) in
    let two : over < p = lt_pow over min h k in
    let whole : 2 ^ 64 ≡ p * m = split_pow min 64 (omega arith) in
    let ones : (2 ^ 64 - p + over) / p ≡ m - 1 =
      ap (λ t. (t - p + over) / p) whole ∙ mask_div p m over two (pow_pos (64 - min)) in
    rw (shifted_in over min l, mask_above over p two h (pow_le min l))
      (extract_ones min (64 - min) address (2 ^ 64 - p + over) ones
        ∙ mod-eq_of_lt
            ((div-lt_iff_lt-mul (pow_pos min)).1 (omega (arith, a, whole, mul_comm p m))))

-- The three fields of an address below 2 ^ 64.
pub fields :
    (over : ℕ) (f : FunctionalCache) (address : ℕ)
    → over < 2
    → 0 < f.log_set_count + f.log_line_size
    → f.log_set_count + f.log_line_size < 64
    → address < 2 ^ 64
    → (get_offset over f address ≡ address % 2 ^ f.log_line_size)
      × (get_setid over f address ≡ address / 2 ^ f.log_line_size % 2 ^ f.log_set_count)
      × (get_tag over f address ≡ address / 2 ^ (f.log_set_count + f.log_line_size))
fields over f address h pos lt a =
    let w : f.log_set_count + f.log_line_size - f.log_line_size ≡ f.log_set_count = omega arith in
    let all : f.log_line_size - 0 ≡ f.log_line_size = omega arith in
    (
      extract_below over f.log_line_size 0 address (omega arith) (omega arith)
          ∙ ap₂ (λ x k. x % 2 ^ k) (div-one address) all,
      extract_below over (f.log_set_count + f.log_line_size) f.log_line_size address (omega arith)
            lt
          ∙ ap (λ k. address / 2 ^ f.log_line_size % 2 ^ k) w,
      extract_above over (f.log_set_count + f.log_line_size) address h pos lt a,
    )

rejoin :
    (p q a : ℕ)
    → 0 < p
    → 0 < q
    → a < 2 ^ 64
    → (a / (q * p) * (q * p) % 2 ^ 64 + a / p % q * p % 2 ^ 64 + a % p) % 2 ^ 64 ≡ a
rejoin p q a h k l =
    let x = a / p / q in
    let r = a / p % q in
    let high : a / (q * p) * (q * p) ≡ x * q * p =
      ap (λ (y : ℕ). y * (q * p)) (ap (λ y. a / y) (mul_comm q p) ∙ sym (div-div-eq-div-mul a p q))
      ∙ sym (mul_assoc x q p) in
    let middle : a / p * p ≡ x * q * p + r * p =
      ap (λ y. y * p) (sym (div-add-mod' (a / p) q)) ∙ add-mul (x * q) r p in
    omega (arith, high, middle, div-add-mod' a p)

-- Where the low fields take between 1 and 63 bits, the address that `insert` computes from the three
-- fields of an address below 2 ^ 64 is that address. `over` is what a shift by 64 gives, 0 or 1.
pub join_fields :
    (over : ℕ) (f : FunctionalCache) (address node_id : ℕ) (is_load : Bool)
    → over < 2
    → 0 < f.log_set_count + f.log_line_size
    → f.log_set_count + f.log_line_size < 64
    → address < 2 ^ 64
    → join f (
        new_line
          (get_tag over f address)
          (get_offset over f address)
          (get_setid over f address)
          node_id
          is_load)
      ≡ address
unfolding join
join_fields over f address node_id is_load h pos lt a =
    let (offset, setid, tag) = fields over f address h pos lt a in
    rw (offset, setid, tag, pow_add f.log_set_count f.log_line_size)
      (rejoin (2 ^ f.log_line_size) (2 ^ f.log_set_count) address (pow_pos f.log_line_size)
        (pow_pos f.log_set_count) a)
