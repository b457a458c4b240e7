-- ===== src/Config/EnvFile.antt =====
-- `load_env_file` of src/config.rs.
use sage_wiki_bridge_wxo.Base.{
  ℕ, suc, ◌+◌, Bool, not, ◌&&◌, ◌||◌, Option, none, some, List, [], ◌∷◌, ◌++◌, ◌⊎◌, inl, inr, leb,
  ◌==◌, if◌then◌else◌, all_of,
}
use sage_wiki_bridge_wxo.Text.{Text, lit, trim, is_empty, starts_with, show_nat}
use sage_wiki_bridge_wxo.Error.{BridgeError, Result, ok, err}
use sage_wiki_bridge_wxo.Dict.{Dict, insert}
use sage_wiki_bridge_wxo.Config.Cli.{split_once}

-- A carriage return at the end of a line belongs to the line end.
unfoldable pub without_cr : Text → Text
without_cr [] = []
without_cr (c ∷ []) = if c == 13 then [] else c ∷ []
without_cr (c ∷ d ∷ t) = c ∷ without_cr (d ∷ t)

unfoldable pub add_to_line : ℕ → List Text → List Text
add_to_line c [] = (c ∷ []) ∷ []
add_to_line c (line ∷ lines) = (c ∷ line) ∷ lines

-- The lines with their carriage returns; no line stands behind the last line feed.
unfoldable pub raw_lines : Text → List Text
unfolding add_to_line
raw_lines [] = []
raw_lines (c ∷ t) = let rest = raw_lines t in if c == 10 then [] ∷ rest else add_to_line c rest

unfoldable pub is_key_char : ℕ → Bool
is_key_char c =
    (leb b'0' c && leb c b'9')
    || (leb b'A' c && leb c b'Z')
    || (leb b'a' c && leb c b'z')
    || c == b'_'

unfoldable pub is_key : Text → Bool
unfolding is_key_char is_empty
is_key key = not (is_empty key) && all_of is_key_char key

-- The last character, or the first.
unfoldable pub last_char : ℕ → Text → ℕ
last_char c [] = c
last_char c (d ∷ t) = last_char d t

unfoldable pub without_last : Text → Text
without_last [] = []
without_last (c ∷ []) = []
without_last (c ∷ d ∷ t) = c ∷ without_last (d ∷ t)

unfoldable pub unquote_env_value : Text → Text
unfolding last_char without_last
unquote_env_value [] = []
unquote_env_value (c ∷ []) = c ∷ []
unquote_env_value (c ∷ d ∷ t) =
    if (c == b'"' && last_char d t == b'"') || (c == b'\'' && last_char d t == b'\'')
    then without_last (d ∷ t)
    else c ∷ d ∷ t

-- One line: nothing, an entry, or what is wrong with it.
unfoldable pub read_line : Text → Text ⊎ Option (Text × Text)
unfolding is_key unquote_env_value
read_line raw =
    let line = trim (without_cr raw) in
    if is_empty line || starts_with (lit "#") line then inr none else elim (split_once b'=' line) [
      | none ↦ inl (lit "missing '='")
      | some (key, value) ↦
          if is_key (trim key)
          then inr (some (trim key, unquote_env_value (trim value)))
          else inl (lit "invalid key")
    ]

unfoldable pub bad_line : Text → ℕ → Text → BridgeError
bad_line path number why =
    BridgeError.config (
      lit "invalid env file " ++ (path ++ (lit " line " ++ (show_nat number ++ (lit ": " ++ why)))))

-- The loop over the lines; `index` counts from 0.
unfoldable pub read_lines : Text → ℕ → List Text → Dict → Result Dict
unfolding read_line bad_line
read_lines path index [] values = ok values
read_lines path index (raw ∷ lines) values = elim (read_line raw) [
  | inl why ↦ err (bad_line path (index + 1) why)
  | inr none ↦ read_lines path (suc index) lines values
  | inr (some (key, value)) ↦ read_lines path (suc index) lines (insert key value values)
]

-- `content` is what `fs::read_to_string` gives: the error's text, or the file's.
unfoldable pub load_env_file : Text → Text ⊎ Text → Result Dict
unfolding read_lines raw_lines
load_env_file path (inl e) =
    err (BridgeError.config (lit "failed to read env file " ++ (path ++ (lit ": " ++ e))))
load_env_file path (inr content) = read_lines path 0 (raw_lines content) []
