-- ===== src/Config/Values.antt =====
-- How src/config.rs reads one value.
use mathlib.Core.Option
use sage_wiki_bridge_wxo.Base.{
  ℕ, ◌^◌, Bool, true, false, ◌||◌, Option, none, some, List, [], ◌∷◌, ◌++◌, ltb, ◌==◌,
  if◌then◌else◌, unwrap_or,
}
use sage_wiki_bridge_wxo.Text.{Text, lit, text_eq, trim, is_empty, non_empty, read_nat}
use sage_wiki_bridge_wxo.Error.{BridgeError, Result, ok, err}
use sage_wiki_bridge_wxo.Enrich.JinaReader.{to_ascii_lowercase}

abbrev pub Lookup : Type 0
Lookup = Text → Option Text

-- `lookup(key).filter(|value| !value.trim().is_empty())`
unfoldable pub filled : Option Text → Option Text
unfolding is_empty trim
filled none = none
filled (some value) = if is_empty (trim value) then none else some value

-- `get_optional_from_lookup`
unfoldable pub get_optional_from_lookup : Lookup → Text → Option Text
unfolding filled
get_optional_from_lookup lookup key = filled (lookup key)

-- The first key that has a value; a blank one hides the later keys.
unfoldable pub first_found : Lookup → List Text → Option Text
first_found lookup [] = none
first_found lookup (key ∷ keys) = elim (lookup key) [
  | some value ↦ some value
  | none ↦ first_found lookup keys
]

unfoldable pub first_lookup : Lookup → List Text → Option Text
unfolding filled first_found
first_lookup lookup keys = filled (first_found lookup keys)

unfoldable pub get_string : Lookup → Text → Text → Text
unfolding filled
get_string lookup key default = unwrap_or default (filled (lookup key))

unfoldable pub get_optional_string : Lookup → Text → Option Text
unfolding non_empty
get_optional_string lookup key = non_empty (Option.map trim (lookup key))

unfoldable pub is_one_of : List Text → Text → Bool
is_one_of [] value = false
is_one_of (t ∷ ts) value = text_eq value t || is_one_of ts value

unfoldable pub get_bool : Lookup → Text → Bool → Result Bool
unfolding filled is_one_of to_ascii_lowercase
get_bool lookup key default = elim (filled (lookup key)) [
  | none ↦ ok default
  | some value ↦
      let word = to_ascii_lowercase (trim value) in
      if is_one_of (lit "1" ∷ lit "true" ∷ lit "yes" ∷ lit "on" ∷ []) word
      then ok true
      else if is_one_of (lit "0" ∷ lit "false" ∷ lit "no" ∷ lit "off" ∷ []) word
      then ok false
      else err (BridgeError.config (key ++ lit " must be a boolean"))
]

-- One sign in front is taken off.
unfoldable pub without_plus : Text → Text
without_plus [] = []
without_plus (c ∷ t) = if c == b'+' then t else c ∷ t

-- `parse` of an unsigned number of `width` bits.
unfoldable pub parse_uint : ℕ → Text → Option ℕ
unfolding without_plus
parse_uint width value =
    if is_empty (without_plus value) then none else elim (read_nat (without_plus value)) [
      | none ↦ none
      | some n ↦ if ltb n (2 ^ width) then some n else none
    ]

-- `get_u32`, `get_u64` and `get_usize`
unfoldable pub get_uint : ℕ → Lookup → Text → ℕ → Result ℕ
unfolding filled parse_uint
get_uint width lookup key default = elim (filled (lookup key)) [
  | none ↦ ok default
  | some value ↦ elim (parse_uint width value) [
    | none ↦ err (BridgeError.config (key ++ lit " must be a positive integer"))
    | some n ↦ ok n
  ]
]

-- `get_optional_u32`
unfoldable pub get_optional_uint : ℕ → Lookup → Text → Result (Option ℕ)
unfolding filled parse_uint
get_optional_uint width lookup key = elim (filled (lookup key)) [
  | none ↦ ok none
  | some value ↦ elim (parse_uint width value) [
    | none ↦ err (BridgeError.config (key ++ lit " must be a positive integer"))
    | some n ↦ ok (some n)
  ]
]

-- The parts of a text between the characters `,`, `;` and line feed.
unfoldable pub is_separator : ℕ → Bool
is_separator c = c == b',' || c == 10 || c == b';'

unfoldable pub add_to_first : ℕ → List Text → List Text
add_to_first c [] = (c ∷ []) ∷ []
add_to_first c (part ∷ parts) = (c ∷ part) ∷ parts

unfoldable pub split_list : Text → List Text
unfolding is_separator add_to_first
split_list [] = [] ∷ []
split_list (c ∷ t) =
    let rest = split_list t in if is_separator c then [] ∷ rest else add_to_first c rest

unfoldable pub keep_filled : List Text → List Text
keep_filled [] = []
keep_filled (item ∷ items) =
    if is_empty (trim item) then keep_filled items else trim item ∷ keep_filled items

unfoldable pub parse_list_env : Option Text → List Text
unfolding split_list keep_filled
parse_list_env value = keep_filled (split_list (unwrap_or [] value))
