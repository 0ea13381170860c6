-- ===== src/Shield/System.antt =====
-- What the allocator uses of the operating system: which addresses are mapped and accessible. The calls may
-- fail; what they do where they succeed is what their manual pages say.
use remniw.Prelude.{
  ℕ, ◌+◌, ◌%◌, ◌^◌, ◌≤◌, ◌<◌, ◌≡◌, Bool, true, false, ◌&&◌, Option, some, ltb, leb, if◌then◌else◌,
}

pub record System : Type 1 where
  pub Pages : Type 0
  pub mapped : Pages → ℕ → Bool
  pub accessible : Pages → ℕ → Bool
  pub page_size : ℕ
  -- `mmap` of so many bytes anywhere, with no access or for reading and writing; then `mprotect` and
  -- `mmap` at an address.
  pub mmap_none : ℕ → Pages → Option (ℕ × Pages)
  pub mmap_read_write : ℕ → Pages → Option (ℕ × Pages)
  pub mprotect_read_write : ℕ → ℕ → Pages → Option Pages
  pub mmap_fixed_none : ℕ → ℕ → Pages → Option Pages

abbrev pub in_range : ℕ → ℕ → ℕ → Bool
in_range from size a = leb from a && ltb a (from + size)

pub record IsSystem (os : System) : Type 0 where
  pub page_is_power : (k : ℕ) × (os.page_size ≡ 2 ^ k) × (4 ≤ k) × (k ≤ 30)
  pub mmap_none_lem :
      (size a : ℕ) (p q : os.Pages)
      → os.mmap_none size p ≡ some (a, q)
      → (0 < a)
        × (a % os.page_size ≡ 0)
        × (a + size < 2 ^ 64)
        × ((b : ℕ)
            → in_range a size b ≡ true
            → (os.mapped q b ≡ true) × (os.accessible q b ≡ false))
  pub mmap_read_write_lem :
      (size a : ℕ) (p q : os.Pages)
      → os.mmap_read_write size p ≡ some (a, q)
      → (b : ℕ) → os.mapped p b ≡ true
      → (os.mapped q b ≡ true) × (os.accessible q b ≡ os.accessible p b)
  pub mprotect_lem :
      (a size : ℕ) (p q : os.Pages)
      → os.mprotect_read_write a size p ≡ some q
      → (b : ℕ) → os.accessible q b ≡ (if in_range a size b then true else os.accessible p b)
  pub mmap_fixed_lem :
      (a size : ℕ) (p q : os.Pages)
      → os.mmap_fixed_none a size p ≡ some q
      → (b : ℕ) → os.accessible q b ≡ (if in_range a size b then false else os.accessible p b)
