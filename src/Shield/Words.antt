-- ===== src/Shield/Words.antt =====
-- The helpers of guarded_pool_allocator.cpp on addresses and sizes, which are 64-bit words.
use Prim.Native.Nat.{bit_and}
use native.Mathlib.Nat.{
  pow-suc, one-le-pow, div-add-mod', mul-le-mul_right, pow-le-pow_right, le-div_iff_mul-le,
  zero-add, suc-add, one-mul, mul_assoc, pow-zero, pow-succ',
}
use remniw.Prelude.{
  ℕ, zero, suc, ◌+◌, ◌-◌, ◌*◌, ◌/◌, ◌%◌, ◌^◌, ◌≤◌, ◌<◌, ◌≡◌, refl, sym, ap, ◌∙◌, inl, inr, Bool,
  true, false, not, ◌||◌, Option, none, some, ◌==◌, if◌then◌else◌, arith, Bool-cases, ==→eq,
}
use remniw.Prelude.Bits.{
  u64, bit_and_mask, bit_and_clear, IsPowerOfTwo, and_pred-zero, and_pred-pow, mod_unique,
}

-- `~x` and `x - 1`
abbrev pub complement : ℕ → ℕ
complement x = 2 ^ 64 - 1 - x

abbrev pub dec : ℕ → ℕ
dec x = u64 (x + (2 ^ 64 - 1))

unfoldable pub round_up_to : ℕ → ℕ → ℕ
round_up_to size boundary = bit_and (dec (u64 (size + boundary))) (complement (dec boundary))

unfoldable pub get_page_addr : ℕ → ℕ → ℕ
get_page_addr ptr page_size = bit_and ptr (complement (dec page_size))

unfoldable pub is_power_of_two : ℕ → Bool
is_power_of_two x = bit_and x (dec x) == 0

-- `none` where an assertion fails.
unfoldable pub align_up : ℕ → ℕ → Option ℕ
unfolding is_power_of_two
align_up ptr alignment =
    if not (is_power_of_two alignment) || alignment == 0
    then none
    else if bit_and ptr (dec alignment) == 0
    then some ptr
    else some (u64 (ptr + (alignment - bit_and ptr (dec alignment))))

unfoldable pub align_down : ℕ → ℕ → Option ℕ
unfolding is_power_of_two
align_down ptr alignment =
    if not (is_power_of_two alignment) || alignment == 0
    then none
    else if bit_and ptr (dec alignment) == 0
    then some ptr
    else some (ptr - bit_and ptr (dec alignment))

abbrev pub IsMultiple : ℕ → ℕ → Type 0
IsMultiple a s = (q : ℕ) × (s ≡ q * a)

pow_split : (d k : ℕ) → 2 ^ (d + k) ≡ 2 ^ d * 2 ^ k
pow_split zero k = rw (zero-add, pow-zero, one-mul) refl
pow_split (suc d) k =
    rw (suc-add, pow-succ', pow-succ', pow_split d k) (sym (mul_assoc 2 (2 ^ d) (2 ^ k)))

pub pow-IsMultiple : (k j : ℕ) → k ≤ j → IsMultiple (2 ^ k) (2 ^ j)
pow-IsMultiple k j h = (2 ^ (j - k), ap (λ (n : ℕ). 2 ^ n) (omega arith) ∙ pow_split (j - k) k)

pub IsMultiple-trans : (a b c : ℕ) → IsMultiple a b → IsMultiple b c → IsMultiple a c
IsMultiple-trans a b c (p, e) (q, f) = (q * p, rw (f, e) (sym (mul_assoc q p a)))

-- The greatest multiple up to `x` is at least every other.
pub below_multiple : (a s x : ℕ) → 0 < a → IsMultiple a s → s ≤ x → s ≤ x - x % a
below_multiple a s x pos (q, e) h =
    let fits : q ≤ x / a = (le-div_iff_mul-le pos).1 (rw (← e) h) in
    rw e (omega (arith, mul-le-mul_right a fits, div-add-mod' x a))

-- On positive words the test accepts the powers of two, and no other.
pub is_power_of_two-IsPowerOfTwo :
    (x : ℕ) → 0 < x → x < 2 ^ 64 → is_power_of_two x ≡ true → IsPowerOfTwo x
unfolding is_power_of_two
is_power_of_two-IsPowerOfTwo x pos word h =
    let pred : dec x ≡ x - 1 = omega arith in
    and_pred-zero x pos (rw (← pred) (==→eq (bit_and x (dec x)) 0 h))

module _ (k : ℕ) (small : k < 64) where
  pow-bounds : (0 < 2 ^ k) × (2 ^ k < 2 ^ 64)
  pow-bounds =
      let twice : 2 ^ suc k ≤ 2 ^ 64 = pow-le-pow_right (omega arith) {j = 64} (omega arith) in
      let pos : 1 ≤ 2 ^ k = one-le-pow k 2 (omega arith) in
      (pos, omega (arith, pow-suc 2 k, twice, pos))

  pub dec_pow : dec (2 ^ k) ≡ 2 ^ k - 1
  dec_pow = omega (arith, pow-bounds)

  mask_pow : (a : ℕ) → bit_and a (dec (2 ^ k)) ≡ a % 2 ^ k
  mask_pow a = rw dec_pow (bit_and_mask k a)

  clear_pow : (a : ℕ) → a < 2 ^ 64 → bit_and a (complement (dec (2 ^ k))) ≡ a - a % 2 ^ k
  clear_pow a word =
      let same : complement (dec (2 ^ k)) ≡ 2 ^ 64 - 2 ^ k = omega (arith, dec_pow, pow-bounds) in
      rw same (bit_and_clear k 64 a (omega arith) word)

  pub pow-is_power_of_two : is_power_of_two (2 ^ k) ≡ true
  unfolding is_power_of_two
  pow-is_power_of_two = rw (dec_pow, and_pred-pow k) refl

  -- Rounding down is to the greatest multiple that is not above.
  pub align_down_lem : (ptr : ℕ) → align_down ptr (2 ^ k) ≡ some (ptr - ptr % 2 ^ k)
  unfolding align_down
  align_down_lem ptr =
      let power = pow-is_power_of_two in
      let positive : (2 ^ k == 0) ≡ false = ground (arith, pow-bounds) in
      elim (Bool-cases (ptr % 2 ^ k == 0)) [
        | inl e ↦
            rw (power, positive, mask_pow ptr, e) (ap some (omega (arith, ==→eq (ptr % 2 ^ k) 0 e)))
        | inr e ↦ rw (power, positive, mask_pow ptr, e) refl
      ]

  -- A multiple is aligned up to itself.
  pub align_up_self : (ptr : ℕ) → ptr % 2 ^ k ≡ 0 → align_up ptr (2 ^ k) ≡ some ptr
  unfolding align_up
  align_up_self ptr m =
      let positive : (2 ^ k == 0) ≡ false = ground (arith, pow-bounds) in
      rw (pow-is_power_of_two, positive, mask_pow ptr, m) refl

  pub get_page_addr_lem : (ptr : ℕ) → ptr < 2 ^ 64 → get_page_addr ptr (2 ^ k) ≡ ptr - ptr % 2 ^ k
  unfolding get_page_addr
  get_page_addr_lem ptr word = clear_pow ptr word

  pub round_up_to_lem :
      (size : ℕ)
      → round_up_to size (2 ^ k) ≡ dec (u64 (size + 2 ^ k)) - dec (u64 (size + 2 ^ k)) % 2 ^ k
  unfolding round_up_to
  round_up_to_lem size = clear_pow (dec (u64 (size + 2 ^ k))) (omega arith)

  -- A size up to the boundary is rounded up to it.
  pub round_up_to_one :
      (size : ℕ) → 0 < size → size ≤ 2 ^ k → k < 63 → round_up_to size (2 ^ k) ≡ 2 ^ k
  unfolding round_up_to
  round_up_to_one size pos fits room =
      let quarter : 2 ^ k ≤ 2 ^ 62 = pow-le-pow_right (omega arith) {j = 62} (omega arith) in
      let sum : dec (u64 (size + 2 ^ k)) ≡ 2 ^ k + (size - 1) = omega (arith, quarter) in
      let rest : (2 ^ k + (size - 1)) % 2 ^ k ≡ size - 1 =
        mod_unique (2 ^ k + (size - 1)) (2 ^ k) 1 (size - 1) (omega arith) (omega arith) in
      rw (sum, clear_pow (2 ^ k + (size - 1)) (omega (arith, quarter))) (omega (arith, rest))
