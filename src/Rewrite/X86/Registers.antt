-- ===== src/Rewrite/X86/Registers.antt =====
-- The choice of a register that an instruction does not use.
use remniw.Prelude.{
  ℕ, zero, suc, ◌+◌, ◌≤◌, ◌<◌, ◌≡◌, ◌≢◌, refl, sym, ◌∙◌, inl, inr, true, false, List, [], ◌∷◌, ◌==◌,
  if◌then◌else◌, length, arith, Bool-cases,
}
use remniw.RegAlloc.Target.{contains}
use remniw.Rewrite.X86.{available_from, get_available_register}

unfoldable remove : ℕ → List ℕ → List ℕ
remove r [] = []
remove r (x ∷ xs) = let rest = remove r xs in if x == r then rest else x ∷ rest

length-remove : (r : ℕ) (xs : List ℕ) → length (remove r xs) ≤ length xs
unfolding remove
length-remove r [] = omega arith
length-remove r (x ∷ xs) = ground (arith, length-remove r xs)

length-remove_member :
    (r : ℕ) (xs : List ℕ) → contains xs r ≡ true → length (remove r xs) < length xs
unfolding remove
length-remove_member r [] h = ground arith
length-remove_member r (x ∷ xs) h = elim (Bool-cases (x == r)) [
  | inl e ↦ rw e (omega (arith, length-remove r xs))
  | inr e ↦ rw e (omega (arith, length-remove_member r xs (rw e at h)))
]

contains-remove : (r q : ℕ) (xs : List ℕ) → r ≢ q → contains (remove r xs) q ≡ contains xs q
unfolding remove
contains-remove r q [] n = refl
contains-remove r q (x ∷ xs) n = ground (arith, contains-remove r q xs n)

-- The registers below `r` do not matter.
available_from-same :
    (n r : ℕ) (xs ys : List ℕ)
    → ((q : ℕ) → r ≤ q → contains xs q ≡ contains ys q)
    → available_from n r xs ≡ available_from n r ys
unfolding available_from
available_from-same zero r xs ys same = refl
available_from-same (suc n) r xs ys same =
    rw (same r (omega arith), available_from-same n (r + 1) xs ys (λ q le. same q (omega arith)))
      refl

-- The register that is found: it is not in use, and the registers in use are passed over at most.
pub record IsAvailable (r : ℕ) (used : List ℕ) (x : ℕ) : Type 0 where
  pub unused : contains used x ≡ false
  pub from : r ≤ x
  pub to : x ≤ r + length used

available_from-IsAvailable :
    (n r : ℕ) (used : List ℕ) → length used < n → IsAvailable r used (available_from n r used)
unfolding available_from
available_from-IsAvailable zero r used h = absurd (omega arith)
available_from-IsAvailable (suc n) r used h = elim (Bool-cases (contains used r)) [
  | inr e ↦ rw e (record { unused = e; from = omega arith; to = omega arith })
  | inl e ↦
      let less = length-remove_member r used e in
      let same : available_from n (r + 1) used ≡ available_from n (r + 1) (remove r used) =
        available_from-same n (r + 1) used (remove r used)
          (λ q le. sym (contains-remove r q used (λ p. omega arith))) in
      let found = available_from-IsAvailable n (r + 1) (remove r used) (omega arith) in
      rw (e, same)
        (record {
          unused = sym (contains-remove r _ used (λ p. omega (arith, found.from))) ∙ found.unused;
          from = omega (arith, found.from);
          to = omega (arith, found.to);
        })
]

-- Where at most 15 registers are in use, `getAvailableRegister` returns one that is not, and passes
-- over no more registers than are in use.
pub get_available_register_lem :
    (used : List ℕ) → length used ≤ 15 → IsAvailable 1 used (get_available_register used)
unfolding get_available_register
get_available_register_lem used h = available_from-IsAvailable 16 1 used (omega arith)
