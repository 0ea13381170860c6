-- ===== src/RegAlloc/DenseMap.antt =====
-- The maps of the allocator (`llvm::DenseMap`, a library): what the code uses of one. `at k` is the
-- value under `k`, and the default where there is none, as `operator[]` makes it; `keys` is the order
-- in which a loop over the map meets its entries.
use remniw.Prelude.{
  ℕ, List, [], ◌∷◌, ◌++◌, ◌==◌, if◌then◌else◌, ◌≡◌, true, ◌⊎◌, inl, inr, arith, Bool-cases,
}
use remniw.RegAlloc.Target.{contains}

pub record DenseMap {ℓ} (V : Type ℓ) : Type ℓ where
  pub keys : List ℕ
  pub at : ℕ → V

abbrev add_key : ℕ → List ℕ → List ℕ
add_key k ks = if contains ks k then ks else ks ++ k ∷ []

module _ {ℓ} {V : Type ℓ} where
  abbrev pub empty : V → DenseMap V
  empty default = record { keys = []; at = λ _. default }

  -- `m[k] = v`
  abbrev pub assign : ℕ → V → DenseMap V → DenseMap V
  assign k v m = record { keys = add_key k m.keys; at = λ j. if j == k then v else m.at j }

  -- Reading `m[k]` makes an entry of the default value where there is none.
  abbrev pub touch : ℕ → DenseMap V → DenseMap V
  touch k m = record m { keys = add_key k m.keys }

contains-snoc :
    (ks : List ℕ) (k j : ℕ) → contains (ks ++ k ∷ []) j ≡ true → (contains ks j ≡ true) ⊎ (k ≡ j)
contains-snoc [] k j h = ground arith
contains-snoc (x ∷ ks) k j h = ground (arith, contains-snoc ks k j)

-- An assignment adds its own key at most.
pub contains-assign {ℓ} :
    {V : Type ℓ} (k : ℕ) (v : V) (m : DenseMap V) (j : ℕ)
    → contains (assign k v m).keys j ≡ true
    → (contains m.keys j ≡ true) ⊎ (k ≡ j)
contains-assign k v m j h = elim (Bool-cases (contains m.keys k)) [
  | inl e ↦ inl (rw e at h)
  | inr e ↦ contains-snoc m.keys k j (rw e at h)
]
