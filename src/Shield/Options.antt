-- ===== src/Shield/Options.antt =====
-- options.cpp: the options of the guarded pool, and the parser of the string that sets them. A string is the
-- list of its bytes before the terminating zero; a position in it is what is left from there.
pub mod Usable
use remniw.Prelude.{
  ℕ, zero, suc, ◌^◌, Bool, true, false, not, ◌&&◌, ◌||◌, Option, none, some, leb, ◌==◌,
  if◌then◌else◌, List, [], ◌∷◌, ◌++◌, length,
}
use remniw.RegAlloc.Register.{u32}

-- An `int` is given by its 32 bits.
pub record Options : Type 0 where
  pub enabled : Bool
  pub max_simultaneous_allocations : ℕ
  pub help : Bool

abbrev pub defaults : Options
defaults = record { enabled = true; max_simultaneous_allocations = 4096; help = false }

abbrev pub is_negative : ℕ → Bool
is_negative x = leb (2 ^ 31) x

abbrev pub Text : Type 0
Text = List ℕ

-- What is printed, with the texts that stand in it.
pub data Message : Type 0 where
  available_options parsing_failed must_be_positive : Message
  expected_equals unterminated unknown_option : Text → Message
  invalid_boolean invalid_integer : Text → Text → Message

pub data OptionType : Type 0 where
  ot_bool ot_int : OptionType

pub data Variable : Type 0 where
  enabled_variable max_variable help_variable : Variable

pub record RegisteredOption : Type 0 where
  pub name : Text
  pub option_type : OptionType
  pub var : Variable

-- "Enabled", "MaxSimultaneousAllocations" and "help"
abbrev pub enabled_name : Text
enabled_name = 69 ∷ 110 ∷ 97 ∷ 98 ∷ 108 ∷ 101 ∷ 100 ∷ []

abbrev pub max_name : Text
max_name =
    77 ∷ 97 ∷ 120 ∷ 83 ∷ 105 ∷ 109 ∷ 117 ∷ 108 ∷ 116 ∷ 97 ∷ 110 ∷ 101 ∷ 111 ∷ 117 ∷ 115 ∷ 65 ∷ 108
    ∷ 108 ∷ 111 ∷ 99 ∷ 97 ∷ 116 ∷ 105 ∷ 111 ∷ 110 ∷ 115 ∷ []

abbrev pub help_name : Text
help_name = 104 ∷ 101 ∷ 108 ∷ 112 ∷ []

abbrev pub registered_options : List RegisteredOption
registered_options =
    record { name = enabled_name; option_type = ot_bool; var = enabled_variable }
    ∷ record { name = max_name; option_type = ot_int; var = max_variable }
    ∷ record { name = help_name; option_type = ot_bool; var = help_variable }
    ∷ []

abbrev pub set_bool : Variable → Bool → Options → Options
set_bool enabled_variable b o = record o { enabled = b }
set_bool max_variable b o = o
set_bool help_variable b o = record o { help = b }

abbrev pub set_int : Variable → ℕ → Options → Options
set_int enabled_variable n o = o
set_int max_variable n o = record o { max_simultaneous_allocations = n }
set_int help_variable n o = o

-- The byte at a position, which is zero at the end.
abbrev pub at : Text → ℕ
at [] = 0
at (c ∷ cs) = c

abbrev pub next : Text → Text
next [] = []
next (c ∷ cs) = cs

-- space , : newline tab return
abbrev pub is_separator : ℕ → Bool
is_separator c = c == 32 || c == 44 || c == 58 || c == 10 || c == 9 || c == 13

abbrev pub is_separator_or_null : ℕ → Bool
is_separator_or_null c = c == 0 || is_separator c

-- `=`, and the two quotes
abbrev pub equals : ℕ
equals = 61

abbrev pub is_quote : ℕ → Bool
is_quote c = c == 39 || c == 34

abbrev pub skip_whitespace : Text → Text
skip_whitespace [] = []
skip_whitespace (c ∷ cs) = if is_separator c then skip_whitespace cs else c ∷ cs

abbrev pub skip_name : Text → Text
skip_name [] = []
skip_name (c ∷ cs) = if c == equals || is_separator_or_null c then c ∷ cs else skip_name cs

abbrev pub skip_value : Text → Text
skip_value [] = []
skip_value (c ∷ cs) = if is_separator_or_null c then c ∷ cs else skip_value cs

abbrev pub skip_quoted : ℕ → Text → Text
skip_quoted quote [] = []
skip_quoted quote (c ∷ cs) = if c == 0 || c == quote then c ∷ cs else skip_quoted quote cs

-- What follows a prefix, where it is one, as `strncmp` finds it.
abbrev pub after_prefix : Text → Text → Option Text
after_prefix [] t = some t
after_prefix (p ∷ ps) [] = none
after_prefix (p ∷ ps) (c ∷ cs) = if p == c then after_prefix ps cs else none

abbrev pub starts_with : Text → Text → Bool
starts_with p t = elim (after_prefix p t) [ none ↦ false | some rest ↦ true ]

-- "0", "no", "false", and "1", "yes", "true"
unfoldable pub parse_bool : Text → Option Bool
parse_bool value =
    if starts_with (48 ∷ []) value
      || starts_with (110 ∷ 111 ∷ []) value
      || starts_with (102 ∷ 97 ∷ 108 ∷ 115 ∷ 101 ∷ []) value
    then some false
    else if starts_with (49 ∷ []) value
        || starts_with (121 ∷ 101 ∷ 115 ∷ []) value
        || starts_with (116 ∷ 114 ∷ 117 ∷ 101 ∷ []) value
    then some true
    else none

-- What a step of the parser leaves: whether it went well, the position, the options, what was printed.
pub record Parsed : Type 0 where
  pub ok : Bool
  pub position : Text
  pub options : Options
  pub messages : List Message

abbrev pub with_messages :
    List Message → Option (Options × List Message) → Option (Options × List Message)
with_messages printed none = none
with_messages printed (some r) = some (r.0, printed ++ r.1)

-- `strtol` of the C library, in base ten: the number, as a word, and where it ends.
module _ (strtol : Text → ℕ × Text) where
  abbrev pub set_option : RegisteredOption → Text → Options → Bool × Options × List Message
  set_option option value o = elim option.option_type [
    | ot_bool ↦ elim (parse_bool value) [
      | none ↦ (false, o, invalid_boolean value option.name ∷ [])
      | some b ↦ (true, set_bool option.var b o, [])
    ]
    | ot_int ↦
        let r = strtol value in
        let ok = is_quote (at r.1) || is_separator_or_null (at r.1) in
        (
          ok,
          set_int option.var (u32 r.0) o,
          if ok then [] else invalid_integer value option.name ∷ [],
        )
  ]

  abbrev pub is_named : RegisteredOption → Text → Bool
  is_named option name = elim (after_prefix option.name name) [
    | none ↦ false
    | some rest ↦ at rest == equals
  ]

  abbrev pub set_first :
      List RegisteredOption → Text → Text → Options → Bool × Options × List Message
  set_first [] name value o = (true, o, unknown_option name ∷ [])
  set_first (option ∷ rest) name value o =
      if is_named option name then set_option option value o else set_first rest name value o

  unfoldable pub set_option_to_value : Text → Text → Text → Options → Parsed
  set_option_to_value name value position o =
      let r = set_first registered_options name value o in
      record { ok = r.0; position = position; options = r.1; messages = r.2 }

  -- The value, from behind the equals sign on.
  unfoldable pub parse_value : Text → Text → Options → Parsed
  unfolding set_option_to_value
  parse_value name value o =
      if is_quote (at value)
      then (let closing = skip_quoted (at value) (next value) in
          if at closing == 0
          then record {
            ok = false;
            position = closing;
            options = o;
            messages = unterminated name ∷ [];
          }
          else set_option_to_value name (next value) (next closing) o)
      else set_option_to_value name value (skip_value value) o

  unfoldable pub parse_option : Text → Options → Parsed
  unfolding parse_value
  parse_option start o =
      let after = skip_name start in
      if at after == equals then parse_value start (next after) o else record {
        ok = false;
        position = after;
        options = o;
        messages = expected_equals start ∷ [];
      }

  -- `none` where the fuel does not suffice.
  unfoldable pub parse_options : ℕ → Text → Options → Option (Options × List Message)
  unfolding parse_option
  parse_options zero t o = none
  parse_options (suc fuel) t o =
      let start = skip_whitespace t in
      let r = parse_option start o in
      let rest = parse_options fuel r.position r.options in
      if at start == 0
      then some (o, [])
      else if not r.ok
      then some (r.options, r.messages ++ parsing_failed ∷ [])
      else with_messages r.messages rest

  -- `none` for the string stands for the null pointer.
  unfoldable pub parse_string : Option Text → Options → Option (Options × List Message)
  unfolding parse_options
  parse_string none o = some (o, [])
  parse_string (some t) o = parse_options (suc (length t)) t o

  -- The tests at the end of `initOptions`.
  abbrev pub check_options : Options → Options × List Message
  check_options o =
      if o.enabled
        && (is_negative o.max_simultaneous_allocations || o.max_simultaneous_allocations == 0)
      then (record o { enabled = false }, must_be_positive ∷ [])
      else (o, [])

  unfoldable pub init_options : Option Text → Option (Options × List Message)
  unfolding parse_string
  init_options t = elim (parse_string t defaults) [
    | none ↦ none
    | some r ↦
        let checked = check_options r.0 in
        some (checked.0, r.1 ++ (if r.0.help then available_options ∷ [] else []) ++ checked.1)
  ]
