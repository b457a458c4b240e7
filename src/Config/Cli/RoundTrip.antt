-- ===== src/Config/Cli/RoundTrip.antt =====
-- Options that are written as arguments are read back.
use sage_wiki_bridge_wxo.Base.{
  ◌≡◌, refl, ap, sym, ◌∙◌, inl, inr, Bool, true, false, not, ◌&&◌, none, some, List, [], ◌∷◌, ◌++◌,
  arith, all_of, All, is_some, Bool-cases, Option-cases,
}
use sage_wiki_bridge_wxo.Text.{Text, lit, text_eq, text_eq_iff, starts_with, contains_char}
use sage_wiki_bridge_wxo.Table.{first_where, first_where_sound, All-first_where}
use sage_wiki_bridge_wxo.Error.{ok}
use sage_wiki_bridge_wxo.Dict.{Dict, insert}
use sage_wiki_bridge_wxo.Config.Keys.{flag_specs}
use sage_wiki_bridge_wxo.Config.Cli.{
  CliConfig, no_options, split_once, command_of, option, find_key, read_option, read_long,
  read_other, read_arg, store_value, parse_args, parse,
}

-- An option with its value in one argument, or in two.
pub data Given : Type 0 where
  joined : (flag key value : Text) → Given
  separate : (flag key value : Text) → Given

-- The flag is one of the table's, with its key; a value of its own does not look like an option.
abbrev pub IsGiven : Given → Type 0
IsGiven (joined flag key value) = find_key flag ≡ some key
IsGiven (separate flag key value) =
    (find_key flag ≡ some key) × (starts_with (lit "--") value ≡ false)

pub arguments : List Given → List Text
arguments [] = []
arguments (joined flag key value ∷ given) = (flag ++ (b'=' ∷ value)) ∷ arguments given
arguments (separate flag key value ∷ given) = flag ∷ value ∷ arguments given

-- The values, the later ones on top.
pub collected : Dict → List Given → Dict
collected values [] = values
collected values (joined flag key value ∷ given) = collected (insert key value values) given
collected values (separate flag key value ∷ given) = collected (insert key value values) given

-- What every flag of the table has.
abbrev is_long : Text → Bool
is_long flag = starts_with (lit "--") flag && not (contains_char b'=' flag)

flags_long : all_of (λ (spec : Text × Text). is_long spec.0) flag_specs ≡ true
unfolding flag_specs starts_with contains_char
flags_long = refl

All-all_of {ℓ} :
    {A : Type ℓ} (p : A → Bool) (xs : List A) → all_of p xs ≡ true → All (λ x. p x ≡ true) xs
All-all_of p [] h = tt
All-all_of p (x ∷ xs) h = (ground arith, All-all_of p xs (ground arith))

flag_long : (flag key : Text) → find_key flag ≡ some key → is_long flag ≡ true
unfolding find_key
flag_long flag key h = elim (Option-cases (first_where (λ spec. text_eq spec.0 flag) flag_specs)) [
  | inl e ↦ absurd (let k = rw e at h in cc k)
  | inr (spec, e) ↦
      let long =
        All-first_where (λ (s : Text × Text). is_long s.0 ≡ true) (λ s. text_eq s.0 flag) flag_specs
          spec (All-all_of (λ (s : Text × Text). is_long s.0) flag_specs flags_long) e in
      let same =
        (text_eq_iff spec.0 flag).0
          (first_where_sound (λ (s : Text × Text). text_eq s.0 flag) flag_specs spec e) in
      ap is_long (sym same) ∙ long
]

-- A text that is told apart from another by a test is not equal to it.
apart : (p : Text → Bool) (a b : Text) → p a ≡ true → p b ≡ false → text_eq a b ≡ false
apart p a b h k = elim (Bool-cases (text_eq a b)) [
  | inl e ↦ absurd (let same = ap p ((text_eq_iff a b).0 e) in cc (sym h ∙ same ∙ k))
  | inr e ↦ e
]

no_command : (arg : Text) → starts_with (lit "--") arg ≡ true → command_of arg ≡ none
unfolding command_of starts_with lit
no_command arg h = rw (
  apart (starts_with (lit "--")) arg (lit "version") h refl,
  apart (starts_with (lit "--")) arg (lit "status") h refl,
  apart (starts_with (lit "--")) arg (lit "doctor") h refl,
  apart (starts_with (lit "--")) arg (lit "health") h refl,
  apart (starts_with (lit "--")) arg (lit "ready") h refl,
)

-- The words that are options by themselves.
record IsApart (arg : Text) : Type 0 where
  help : text_eq arg (lit "--help") ≡ false
  short_help : text_eq arg (lit "-h") ≡ false
  version : text_eq arg (lit "--version") ≡ false
  verbose : text_eq arg (lit "-V") ≡ false
  process_env : text_eq arg (lit "--use-process-env") ≡ false
  env_file : text_eq arg (lit "--env-file") ≡ false

with_sign-IsApart : (arg : Text) → contains_char b'=' arg ≡ true → IsApart arg
unfolding contains_char lit
with_sign-IsApart arg h = record {
  help = apart (contains_char b'=') arg (lit "--help") h refl;
  short_help = apart (contains_char b'=') arg (lit "-h") h refl;
  version = apart (contains_char b'=') arg (lit "--version") h refl;
  verbose = apart (contains_char b'=') arg (lit "-V") h refl;
  process_env = apart (contains_char b'=') arg (lit "--use-process-env") h refl;
  env_file = apart (contains_char b'=') arg (lit "--env-file") h refl;
}

abbrev is_known : Text → Bool
is_known flag = is_some (find_key flag)

flag-IsApart : (flag : Text) → is_known flag ≡ true → IsApart flag
unfolding find_key flag_specs first_where text_eq lit
flag-IsApart flag h = record {
  help = apart is_known flag (lit "--help") h refl;
  short_help = apart is_known flag (lit "-h") h refl;
  version = apart is_known flag (lit "--version") h refl;
  verbose = apart is_known flag (lit "-V") h refl;
  process_env = apart is_known flag (lit "--use-process-env") h refl;
  env_file = apart is_known flag (lit "--env-file") h refl;
}

read_arg-long :
    (config : CliConfig) (arg : Text)
    → starts_with (lit "--") arg ≡ true
    → IsApart arg
    → read_arg config arg ≡ read_long config arg
unfolding read_arg read_other
read_arg-long config arg long a = rw (
  no_command arg long,
  a.help,
  a.short_help,
  a.version,
  a.verbose,
  a.process_env,
  a.env_file,
  long,
)

starts_with-longer : (n t rest : Text) → starts_with n t ≡ true → starts_with n (t ++ rest) ≡ true
unfolding starts_with
starts_with-longer [] t rest h = refl
starts_with-longer (c ∷ n) [] rest h = cc
starts_with-longer (c ∷ n) (d ∷ t) rest h = ground (arith, starts_with-longer n t rest)

contains_sign : (flag value : Text) → contains_char b'=' (flag ++ b'=' ∷ value) ≡ true
unfolding contains_char
contains_sign [] value = refl
contains_sign (c ∷ flag) value = ground (arith, contains_sign flag value)

split_once-none : (flag : Text) → contains_char b'=' flag ≡ false → split_once b'=' flag ≡ none
unfolding split_once contains_char
split_once-none [] h = refl
split_once-none (c ∷ flag) h = ground (arith, split_once-none flag)

split_once-append :
    (flag value : Text)
    → contains_char b'=' flag ≡ false
    → split_once b'=' (flag ++ b'=' ∷ value) ≡ some (flag, value)
unfolding split_once contains_char
split_once-append [] value h = refl
split_once-append (c ∷ flag) value h = ground (arith, split_once-append flag value)

long_parts :
    (flag : Text)
    → is_long flag ≡ true
    → (starts_with (lit "--") flag ≡ true) × (contains_char b'=' flag ≡ false)
long_parts flag h = (ground arith, ground arith)

module _ (config : CliConfig) (flag key value : Text) (known : find_key flag ≡ some key) where
  abbrev stored : CliConfig
  stored = record config { values = insert key value config.values }

  joined_lem : read_arg config (flag ++ (b'=' ∷ value)) ≡ ok (stored, none)
  unfolding read_long read_option
  joined_lem =
      let (long, no_sign) = long_parts flag (flag_long flag key known) in
      let arg = flag ++ (b'=' ∷ value) in
      read_arg-long config arg (starts_with-longer (lit "--") flag (b'=' ∷ value) long)
        (with_sign-IsApart arg (contains_sign flag value))
      ∙ rw (split_once-append flag value no_sign, read_long) (rw (known, read_option) refl)

  separate_lem : read_arg config flag ≡ ok (config, some (option flag key))
  unfolding read_long read_option
  separate_lem =
      let (long, no_sign) = long_parts flag (flag_long flag key known) in
      read_arg-long config flag long (flag-IsApart flag (ap is_some known))
      ∙ rw (split_once-none flag no_sign, read_long) (rw (known, read_option) refl)

parse_args-arguments :
    (config : CliConfig) (given : List Given)
    → All IsGiven given
    → parse_args config none (arguments given)
      ≡ ok (record config { values = collected config.values given })
unfolding parse_args arguments collected store_value
parse_args-arguments config [] h = refl
parse_args-arguments config (joined flag key value ∷ given) (known, rest) =
    rw (joined_lem config flag key value known, parse_args)
      (parse_args-arguments (stored config flag key value known) given rest)
parse_args-arguments config (separate flag key value ∷ given) ((known, plain), rest) =
    rw (separate_lem config flag key value known, plain, parse_args)
      (parse_args-arguments (stored config flag key value known) given rest)

-- Options of the table, each with its value in the same argument or in the next one, give the
-- configuration with these values, where a later option for a key replaces an earlier one.
pub parse-arguments :
    (program : Text) (given : List Given)
    → All IsGiven given
    → parse (program ∷ arguments given) ≡ ok (record no_options { values = collected [] given })
unfolding parse
parse-arguments program given h = parse_args-arguments no_options given h
