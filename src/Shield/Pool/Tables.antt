-- ===== src/Shield/Pool/Tables.antt =====
-- What `init` does after the pool is reserved: the metadata and the list of free slots are mapped, or the
-- system has no memory.
use native.Mathlib.Nat.{one-le-pow}
use remniw.Prelude.{
  ℕ, ◌+◌, ◌*◌, ◌%◌, ◌^◌, ◌≤◌, ◌≡◌, refl, ◌∙◌, inl, inr, true, none, some, arith, Option-cases,
}
use remniw.Prelude.Bits.{u64}
use remniw.Shield.System.{System, IsSystem}
use remniw.Shield.Words.{round_up_to, round_up_to_lem, dec}
use remniw.Shield.Pool.{Pool, Outcome, done, died, ◌>>=◌ as bind}
use remniw.Shield.Pool.Place.{rounded-mod}
use remniw.Shield.Pool.Init.{no_metadata, map, map_tables, ◌>>=◌}

round_up_to-mod : (size k : ℕ) → k ≤ 30 → round_up_to size (2 ^ k) % 2 ^ k ≡ 0
round_up_to-mod size k le =
    rw (round_up_to_lem k (omega arith) size)
      (rounded-mod (2 ^ k) (dec (u64 (size + 2 ^ k))) (one-le-pow k 2 (omega arith)))

module _ (os : System) where
  -- The system refuses, with such pages mapped, the bytes of the metadata for so many slots; or it gives
  -- them, and refuses the bytes of the list of free slots.
  pub data NoTables (max : ℕ) (pages : os.Pages) : Type 0 where
    no_metadata_bytes :
        os.mmap_read_write (round_up_to (u64 (max * 24)) os.page_size) pages ≡ none
        → NoTables max pages
    no_list_bytes :
        (a : ℕ) (p : os.Pages)
        → os.mmap_read_write (round_up_to (u64 (max * 24)) os.page_size) pages ≡ some (a, p)
        → os.mmap_read_write (round_up_to (u64 (max * 8)) os.page_size) p ≡ none
        → NoTables max pages

  -- The tables are mapped elsewhere than what is mapped, or the system has no memory.
  pub data Mapped (st : Pool os.Pages) (out : Outcome (Pool os.Pages) (Unit {0})) : Type 0 where
    no_memory : NoTables st.state.max_simultaneous_allocations st.pages → out ≡ died → Mapped st out
    tables :
        (pages : os.Pages)
        → out
          ≡ done tt (record st { metadata = λ _. no_metadata; free_slots = λ _. 0; pages = pages })
        → ((b : ℕ) → os.mapped st.pages b ≡ true → os.accessible pages b ≡ os.accessible st.pages b)
        → Mapped st out

module _ (os : System) (laws : IsSystem os) where
  pub map_tables-Mapped :
      (st : Pool os.Pages) (k : ℕ)
      → st.state.page_size ≡ 2 ^ k
      → st.state.page_size ≡ os.page_size
      → k ≤ 30
      → Mapped os st (map_tables os st)
  unfolding map_tables map
  map_tables-Mapped st k is same le =
      let md = round_up_to (u64 (st.state.max_simultaneous_allocations * 24)) st.state.page_size in
      let fs = round_up_to (u64 (st.state.max_simultaneous_allocations * 8)) st.state.page_size in
      let whole_md : md % st.state.page_size ≡ 0 =
        rw is (round_up_to-mod (u64 (st.state.max_simultaneous_allocations * 24)) k le) in
      let whole_fs : fs % st.state.page_size ≡ 0 =
        rw is (round_up_to-mod (u64 (st.state.max_simultaneous_allocations * 8)) k le) in
      rw (◌>>=◌, bind, map, whole_md)
        (elim (Option-cases (os.mmap_read_write md st.pages)) [
          | inl gone ↦ rw gone (no_memory (no_metadata_bytes (rw (← same) gone)) refl)
          | inr ((a, p), e) ↦
              rw (e, ◌>>=◌, bind, map, whole_fs)
                (elim (Option-cases (os.mmap_read_write fs p)) [
                  | inl gone ↦
                      rw gone
                        (no_memory (no_list_bytes a p (rw (← same) e) (rw (← same) gone)) refl)
                  | inr ((b, q), f) ↦ rw f (
                      tables q refl (λ c has.
                        let (still, first) = laws.mmap_read_write_lem md a st.pages p e c has in
                        let (again, second) = laws.mmap_read_write_lem fs b p q f c still in
                        second ∙ first))
                ])
        ])
