-- ===== src/Tests/ShieldSystem.antt =====
-- A system with pages of 16 bytes, which hands out addresses upwards, and meets the laws.
use remniw.Prelude.{
  ℕ, ◌+◌, ◌*◌, ◌/◌, ◌%◌, ◌^◌, ◌<◌, ◌≡◌, refl, sym, ap, inl, inr, Bool, true, false, Option, none,
  some, ltb, if◌then◌else◌, arith, Bool-cases,
}
use remniw.Shield.System.{System, IsSystem, in_range}

-- What is below `limit` is mapped.
pub record Memory : Type 0 where
  pub limit : ℕ
  pub is_open : ℕ → Bool

abbrev fresh : Memory → ℕ
fresh p = (p.limit / 16 + 1) * 16

abbrev set_range : ℕ → ℕ → Bool → Memory → ℕ → Bool
set_range a size to p b = if in_range a size b then to else p.is_open b

abbrev place_bytes : Bool → ℕ → Memory → Option (ℕ × Memory)
place_bytes to size p =
    if ltb (fresh p + size) (2 ^ 64)
    then some (fresh p, record { limit = fresh p + size; is_open = set_range (fresh p) size to p })
    else none

abbrev pub small_system : System
small_system = record {
  Pages = Memory;
  mapped = λ p b. ltb b p.limit;
  accessible = λ p b. p.is_open b;
  page_size = 16;
  mmap_none = place_bytes false;
  mmap_read_write = place_bytes true;
  mprotect_read_write = λ a size p. some (record p { is_open = set_range a size true p });
  mmap_fixed_none = λ a size p. some (record p { is_open = set_range a size false p });
}

address_of : Option (ℕ × Memory) → ℕ
address_of none = 0
address_of (some r) = r.0

memory_of : Memory → Option (ℕ × Memory) → Memory
memory_of p none = p
memory_of p (some r) = r.1

-- What was placed, where something was.
placed_bytes :
    (to : Bool) (size a : ℕ) (p q : Memory)
    → place_bytes to size p ≡ some (a, q)
    → (fresh p + size < 2 ^ 64)
      × (fresh p ≡ a)
      × (record { limit = fresh p + size; is_open = set_range (fresh p) size to p } ≡ q)
unfolding address_of memory_of
placed_bytes to size a p q h = elim (Bool-cases (ltb (fresh p + size) (2 ^ 64))) [
  | inl fits ↦ let e = rw fits at h in (ground arith, ap address_of e, ap (memory_of p) e)
  | inr full ↦ let e = rw full at h in absurd (grind arith)
]

pub small_system-IsSystem : IsSystem small_system
unfolding memory_of
small_system-IsSystem = record {
  page_is_power = (4, refl, omega arith, omega arith);
  mmap_none_lem = λ size a p q h. none_lem size a p q h;
  mmap_read_write_lem = λ size a p q h b m. write_lem size a p q h b m;
  mprotect_lem = λ a size p q h b. ap (λ o. (memory_of p (pair o)).is_open b) (sym h);
  mmap_fixed_lem = λ a size p q h b. ap (λ o. (memory_of p (pair o)).is_open b) (sym h);
}
  where
    pair : Option Memory → Option (ℕ × Memory)
    pair none = none
    pair (some q) = some (0, q)

    none_lem :
        (size a : ℕ) (p q : Memory)
        → place_bytes false size p ≡ some (a, q)
        → (0 < a)
          × (a % 16 ≡ 0)
          × (a + size < 2 ^ 64)
          × ((b : ℕ) → in_range a size b ≡ true → (ltb b q.limit ≡ true) × (q.is_open b ≡ false))
    none_lem size a p q h =
        let (fits, e, f) = placed_bytes false size a p q h in
        rw (← e, ← f) (omega arith, omega arith, fits, λ b inside. (ground arith, rw inside refl))

    write_lem :
        (size a : ℕ) (p q : Memory)
        → place_bytes true size p ≡ some (a, q)
        → (b : ℕ) → ltb b p.limit ≡ true
        → (ltb b q.limit ≡ true) × (q.is_open b ≡ p.is_open b)
    write_lem size a p q h b m =
        let (fits, e, f) = placed_bytes true size a p q h in
        let outside : in_range (fresh p) size b ≡ false = ground arith in
        rw (← f) (ground arith, rw outside refl)
