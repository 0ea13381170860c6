-- ===== src/Prelude/Bits.antt =====
-- `&` and `|` of machine words as arithmetic, at every width: masks, flags and powers of two.
use Prim.Native.Nat.{min, max, bit_and, bit_or, digits, bitwise, bit_and-bitwise, bit_or-bitwise}
use native.Mathlib.Decide.{ℕ_discrete}
use native.Mathlib.Nat.{
  pow-suc, one-le-pow, mod-lt, mod-eq_of_lt, mul-add-mod_self_right, div-eq_of_lt-le, div-add-mod',
  div-one, mod_self, div-div-eq-div-mul,
}
use remniw.Prelude.{ℕ, zero, suc, ◌+◌, ◌-◌, ◌*◌, ◌/◌, ◌%◌, ◌^◌, ◌≤◌, ◌<◌, ◌≡◌, refl, ap, ◌∙◌, arith}
use remniw.Prelude.Order.{strong_induction}

-- The native operations stand for a recursion on binary digits that takes its first operand for
-- fuel; any fuel that is enough gives the same.
module _ (last : ℕ → ℕ) (digit : ℕ → ℕ → ℕ) where
  enough_fuel : (x y i j : ℕ) → x ≤ i → x ≤ j → digits last digit i x y ≡ digits last digit j x y
  enough_fuel zero y zero zero p q = refl
  enough_fuel zero y zero (suc j) p q = refl
  enough_fuel zero y (suc i) zero p q = refl
  enough_fuel zero y (suc i) (suc j) p q = refl
  enough_fuel (suc x) y zero j p q = absurd (omega arith)
  enough_fuel (suc x) y (suc i) zero p q = absurd (omega arith)
  enough_fuel (suc x) y (suc i) (suc j) p q =
      rw (enough_fuel (suc x / 2) (y / 2) i j (omega arith) (omega arith))

  lowest_digit :
      (x y : ℕ)
      → bitwise last digit (suc x) y
        ≡ bitwise last digit (suc x / 2) (y / 2) * 2 + digit (suc x % 2) (y % 2)
  lowest_digit x y = rw (enough_fuel (suc x / 2) (y / 2) x (suc x / 2) (omega arith) (omega arith))

bit_and-low : (x y : ℕ) → bit_and x y ≡ 2 * bit_and (x / 2) (y / 2) + min (x % 2) (y % 2)
bit_and-low zero y = simp bit_and-bitwise (omega arith)
bit_and-low (suc x) y = simp bit_and-bitwise (omega (arith, lowest_digit (λ _. 0) min x y))

bit_or-low : (x y : ℕ) → bit_or x y ≡ 2 * bit_or (x / 2) (y / 2) + max (x % 2) (y % 2)
bit_or-low zero y = simp bit_or-bitwise (omega arith)
bit_or-low (suc x) y = simp bit_or-bitwise (omega (arith, lowest_digit (λ d. d) max x y))

pub bit_and-zero : (a : ℕ) → bit_and a 0 ≡ 0
bit_and-zero = strong_induction (λ a. bit_and a 0 ≡ 0) halve
  where
    halve : (x : ℕ) → ((y : ℕ) → y < x → bit_and y 0 ≡ 0) → bit_and x 0 ≡ 0
    halve zero smaller = refl
    halve (suc x) smaller = omega (arith, smaller (suc x / 2) (omega arith), bit_and-low (suc x) 0)

bit_and_self : (a : ℕ) → bit_and a a ≡ a
bit_and_self = strong_induction (λ a. bit_and a a ≡ a) step
  where
    step : (a : ℕ) → ((m : ℕ) → m < a → bit_and m m ≡ m) → bit_and a a ≡ a
    step zero ih = refl
    step (suc a) ih = omega (arith, bit_and-low (suc a) (suc a), ih (suc a / 2) (omega arith))

-- Division with remainder is unique.
pub mod_unique : (a d q r : ℕ) → a ≡ q * d + r → r < d → a % d ≡ r
mod_unique a d q r e h = rw e (mul-add-mod_self_right q d r ∙ mod-eq_of_lt h)

pub div_unique : (a d q r : ℕ) → a ≡ q * d + r → r < d → a / d ≡ q
div_unique a d q r e h = div-eq_of_lt-le d (omega arith) (omega arith)

mod_pow_suc : (k a : ℕ) → a % 2 ^ suc k ≡ a / 2 % 2 ^ k * 2 + a % 2
mod_pow_suc k a =
    mod_unique a (2 ^ suc k) (a / 2 / 2 ^ k) (a / 2 % 2 ^ k * 2 + a % 2)
      (omega (arith, div-add-mod' (a / 2) (2 ^ k), ap (λ (t : ℕ). a / 2 / 2 ^ k * t) (pow-suc 2 k)))
      (omega (arith, pow-suc 2 k, mod-lt (a / 2) {m = 2 ^ k} (one-le-pow k 2 (omega arith))))

-- A mask of `k` ones keeps the remainder by `2 ^ k`.
pub bit_and_mask : (k a : ℕ) → bit_and a (2 ^ k - 1) ≡ a % 2 ^ k
bit_and_mask zero a = omega (arith, bit_and-zero a)
bit_and_mask (suc k) a = rw (halved, rest) (omega (arith, bit_and_mask k (a / 2), mod_pow_suc k a))
  where
    halved : bit_and a (2 ^ suc k - 1) ≡ 2 * bit_and (a / 2) ((2 ^ suc k - 1) / 2) + a % 2
    halved = omega (arith, bit_and-low a (2 ^ suc k - 1), pow-suc 2 k, one-le-pow k 2 (omega arith))

    rest : (2 ^ suc k - 1) / 2 ≡ 2 ^ k - 1
    rest = omega (arith, pow-suc 2 k, one-le-pow k 2 (omega arith))

-- The complement of that mask, in a word of `w` bits, clears them.
pub bit_and_clear : (k w a : ℕ) → k ≤ w → a < 2 ^ w → bit_and a (2 ^ w - 2 ^ k) ≡ a - a % 2 ^ k
bit_and_clear zero w a h lt = omega (arith, bit_and_mask w a, mod-eq_of_lt lt)
bit_and_clear (suc k) zero a h lt = absurd (omega arith)
bit_and_clear (suc k) (suc w) a h lt =
    rw (bit_and-low a (2 ^ suc w - 2 ^ suc k), halves)
      (omega (
        arith,
        pow-suc 2 k,
        pow-suc 2 w,
        mod_pow_suc k a,
        bit_and_clear k w (a / 2) (omega arith) (omega (arith, pow-suc 2 w)),
      ))
  where
    halves : (2 ^ suc w - 2 ^ suc k) / 2 ≡ 2 ^ w - 2 ^ k
    halves = omega (arith, pow-suc 2 k, pow-suc 2 w)

-- One flag reads one digit, and sets it.
pub bit_and_flag : (k a : ℕ) → bit_and a (2 ^ k) ≡ a / 2 ^ k % 2 * 2 ^ k
bit_and_flag zero a = omega (arith, bit_and_mask 1 a, div-one a)
bit_and_flag (suc k) a =
    rw (bit_and-low a (2 ^ suc k), halves, pow-suc' k, ← div-div-eq-div-mul a 2 (2 ^ k))
      (omega (arith, bit_and_flag k (a / 2), pow-suc' k))
  where
    halves : 2 ^ suc k / 2 ≡ 2 ^ k
    halves = omega (arith, pow-suc 2 k)

    pow-suc' : (n : ℕ) → 2 ^ suc n ≡ 2 * 2 ^ n
    pow-suc' n = omega (arith, pow-suc 2 n)

pub bit_or_flag : (k a : ℕ) → a < 2 ^ k → bit_or a (2 ^ k) ≡ a + 2 ^ k
bit_or_flag zero zero h = refl
bit_or_flag zero (suc a) h = absurd (omega arith)
bit_or_flag (suc k) a h =
    rw (bit_or-low a (2 ^ suc k), halves)
      (omega (arith, pow-suc 2 k, bit_or_flag k (a / 2) (omega (arith, pow-suc 2 k))))
  where
    halves : 2 ^ suc k / 2 ≡ 2 ^ k
    halves = omega (arith, pow-suc 2 k)

bit_and-halves :
    (a b a' b' : ℕ)
    → a / 2 ≡ a'
    → b / 2 ≡ b'
    → bit_and a b ≡ 2 * bit_and a' b' + min (a % 2) (b % 2)
bit_and-halves a b a' b' p q = rw (← p, ← q) (bit_and-low a b)

abbrev pub IsPowerOfTwo : ℕ → Type 0
IsPowerOfTwo x = (k : ℕ) × (x ≡ 2 ^ k)

double-IsPowerOfTwo : (x y : ℕ) → x ≡ 2 * y → IsPowerOfTwo y → IsPowerOfTwo x
double-IsPowerOfTwo x y e (k, p) = (suc k, omega (arith, pow-suc 2 k))

-- `x & (x - 1)` drops the lowest digit that is set, so it is 0 at the powers of two only.
pub and_pred-zero : (x : ℕ) → 0 < x → bit_and x (x - 1) ≡ 0 → IsPowerOfTwo x
and_pred-zero = strong_induction (λ x. 0 < x → bit_and x (x - 1) ≡ 0 → IsPowerOfTwo x) step
  where
    step :
        (x : ℕ)
        → ((m : ℕ) → m < x → 0 < m → bit_and m (m - 1) ≡ 0 → IsPowerOfTwo m)
        → 0 < x
        → bit_and x (x - 1) ≡ 0
        → IsPowerOfTwo x
    step x ih p h = elim (ℕ_discrete (x % 2) 0) [
      | yes even ↦ double-IsPowerOfTwo x (x / 2) (omega arith) (
          ih (x / 2) (omega arith) (omega arith)
            (omega (arith, bit_and-halves x (x - 1) (x / 2) (x / 2 - 1) refl (omega arith))))
      | no odd ↦ (
        0,
        omega (
          arith,
          bit_and-halves x (x - 1) (x / 2) (x / 2) refl (omega arith),
          bit_and_self (x / 2),
        ),
      )
    ]

pub and_pred-pow : (k : ℕ) → bit_and (2 ^ k) (2 ^ k - 1) ≡ 0
and_pred-pow k = bit_and_mask k (2 ^ k) ∙ mod_self (2 ^ k)

-- A value of a 64-bit type, `int64_t` too, as its word.
abbrev pub u64 : ℕ → ℕ
u64 n = n % 2 ^ 64
