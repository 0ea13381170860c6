-- ===== src/Shield/Options/Usable.antt =====
-- The parser of the options ends, and the options that it gives are such that `init` can use them.
use remniw.Prelude.{
  ℕ, zero, suc, ◌^◌, ◌≤◌, ◌<◌, ◌≡◌, ◌≢◌, refl, inl, inr, true, false, ◌&&◌, ◌||◌, Option, none,
  some, ◌==◌, if◌then◌else◌, List, [], ◌∷◌, ◌++◌, length, arith, Bool-cases,
}
use remniw.Shield.Options.{
  Options, Text, Message, at, next, skip_whitespace, skip_name, skip_value, skip_quoted,
  is_separator, is_separator_or_null, equals, is_quote, set_option_to_value, parse_value,
  parse_option, parse_options, parse_string, init_options, check_options, defaults, is_negative,
  parsing_failed, available_options,
}

length-skip_whitespace : (t : Text) → length (skip_whitespace t) ≤ length t
length-skip_whitespace [] = omega arith
length-skip_whitespace (c ∷ cs) = elim (Bool-cases (is_separator c)) [
  | inl e ↦ rw e (omega (arith, length-skip_whitespace cs))
  | inr e ↦ rw e (omega arith)
]

length-skip_name : (t : Text) → length (skip_name t) ≤ length t
length-skip_name [] = omega arith
length-skip_name (c ∷ cs) = elim (Bool-cases (c == equals || is_separator_or_null c)) [
  | inl e ↦ rw e (omega arith)
  | inr e ↦ rw e (omega (arith, length-skip_name cs))
]

length-skip_value : (t : Text) → length (skip_value t) ≤ length t
length-skip_value [] = omega arith
length-skip_value (c ∷ cs) = elim (Bool-cases (is_separator_or_null c)) [
  | inl e ↦ rw e (omega arith)
  | inr e ↦ rw e (omega (arith, length-skip_value cs))
]

length-skip_quoted : (q : ℕ) (t : Text) → length (skip_quoted q t) ≤ length t
length-skip_quoted q [] = omega arith
length-skip_quoted q (c ∷ cs) = elim (Bool-cases (c == 0 || c == q)) [
  | inl e ↦ rw e (omega arith)
  | inr e ↦ rw e (omega (arith, length-skip_quoted q cs))
]

length-next : (t : Text) → length (next t) ≤ length t
length-next [] = omega arith
length-next (c ∷ cs) = omega arith

-- Where a byte is not zero, one byte less is left behind it.
length-next_lt : (t : Text) → at t ≢ 0 → length (next t) < length t
length-next_lt [] h = absurd (h refl)
length-next_lt (c ∷ cs) h = omega arith

module _ (strtol : Text → ℕ × Text) where
  length-parse_value :
      (name value : Text) (o : Options)
      → length (parse_value strtol name value o).position ≤ length value
  unfolding parse_value set_option_to_value
  length-parse_value name value o = elim (Bool-cases (is_quote (at value))) [
    | inr plain ↦ rw plain (length-skip_value value)
    | inl quoted ↦
        let closing = skip_quoted (at value) (next value) in
        let less : length closing ≤ length value =
          omega (arith, length-skip_quoted (at value) (next value), length-next value) in
        elim (Bool-cases (at closing == 0)) [
          | inl open_ ↦ rw (quoted, open_) less
          | inr closed ↦ rw (quoted, closed) (omega (arith, less, length-next closing))
        ]
  ]

  -- An option that is parsed well takes at least one byte.
  parse_option-less :
      (start : Text) (o : Options)
      → (parse_option strtol start o).ok ≡ true
      → length (parse_option strtol start o).position < length start
  unfolding parse_option
  parse_option-less start o = elim (Bool-cases (at (skip_name start) == equals)) [
    | inl e ↦ rw e (λ h. omega (
      arith,
      length-parse_value start (next (skip_name start)) o,
      length-skip_name start,
      length-next_lt (skip_name start) (ground arith),
    ))
    | inr e ↦ rw e (λ h. ground arith)
  ]

  parse_options-returns :
      (fuel : ℕ) (t : Text) (o : Options)
      → length t < fuel
      → (r : Options × List Message) × (parse_options strtol fuel t o ≡ some r)
  unfolding parse_options
  parse_options-returns zero t o h = absurd (omega arith)
  parse_options-returns (suc fuel) t o h =
      let start = skip_whitespace t in
      elim (Bool-cases (at start == 0)) [
        | inl e ↦ rw e ((o, []), refl)
        | inr e ↦
            let p = parse_option strtol start o in
            elim (Bool-cases p.ok) [
              | inr failed ↦ rw (e, failed) ((p.options, p.messages ++ parsing_failed ∷ []), refl)
              | inl fine ↦
                  let (r, is) =
                    parse_options-returns fuel p.position p.options
                      (omega (arith, parse_option-less start o fine, length-skip_whitespace t)) in
                  rw (e, fine, is) ((r.0, p.messages ++ r.1), refl)
            ]
      ]

  parse_string-returns :
      (t : Option Text) (o : Options)
      → (r : Options × List Message) × (parse_string strtol t o ≡ some r)
  unfolding parse_string
  parse_string-returns none o = ((o, []), refl)
  parse_string-returns (some t) o = parse_options-returns (suc (length t)) t o (omega arith)

  check_options-IsUsable :
      (o : Options)
      → (check_options strtol o).0.enabled ≡ true
      → (0 < (check_options strtol o).0.max_simultaneous_allocations)
        × ((check_options strtol o).0.max_simultaneous_allocations < 2 ^ 31)
  check_options-IsUsable o h =
      elim (Bool-cases (
        o.enabled
        && (is_negative o.max_simultaneous_allocations || o.max_simultaneous_allocations == 0))) [
          | inl bad ↦ let off : false ≡ true = rw bad at h in absurd (ground (arith, off))
          | inr fine ↦
              let on : o.enabled ≡ true = rw fine at h in rw fine (ground (arith, on, fine))
        ]

  -- Whatever the string is, and whatever `strtol` makes of a number, `initOptions` comes to its end; and
  -- where the allocator is then enabled, the number of slots is positive as an `int`.
  pub init_options-IsUsable :
      (t : Option Text)
      → (o : Options) × (messages : List Message) × (init_options strtol t ≡ some (o, messages))
        × (o.enabled ≡ true
            → (0 < o.max_simultaneous_allocations) × (o.max_simultaneous_allocations < 2 ^ 31))
  unfolding init_options
  init_options-IsUsable t =
      let (r, is) = parse_string-returns t defaults in
      let checked = check_options strtol r.0 in
      (
        checked.0,
        r.1 ++ (if r.0.help then available_options ∷ [] else []) ++ checked.1,
        rw (init_options, is) refl,
        check_options-IsUsable r.0,
      )
