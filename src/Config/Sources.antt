-- ===== src/Config/Sources.antt =====
-- Where each value of the configuration comes from.
use sage_wiki_bridge_wxo.Base.{
  ◌≡◌, refl, ap, sym, ◌∙◌, Bool, true, false, Option, none, some, List, [], ◌∷◌, ◌++◌, ◌⊎◌, inl,
  inr, if◌then◌else◌, Bool-cases, Option-cases,
}
use sage_wiki_bridge_wxo.Text.{Text, lit, text_eq}
use sage_wiki_bridge_wxo.Table.{select_where}
use sage_wiki_bridge_wxo.Dict.{Dict, get, get-insert}
use sage_wiki_bridge_wxo.Error.{ok, err, Result-cases}
use sage_wiki_bridge_wxo.Config.Cli.{CliConfig}
use sage_wiki_bridge_wxo.Config.EnvFile.{load_env_file}
use sage_wiki_bridge_wxo.Config.Resolve.{
  ResolvedValues, no_values, insert_value, stored_key, stored_source, insert_input, insert_inputs,
  insert_cli, is_filled, from_process_env, resolve_values,
}

-- A value with its source, where there is one.
abbrev pub Found : Type 0
Found = Option Text × Option Text

abbrev pub found : Text → ResolvedValues → Found
found key resolved = (get key resolved.values, get key resolved.sources)

-- What a source has for a key, in front of what the sources below it have.
abbrev pub over : Option (Text × Text) → Found → Found
over none below = below
over (some entry) below = (some entry.0, some entry.1)

-- The last of the entries whose name stands for the key.
pub last_input : Text → Text → List (Text × Text) → Option (Text × Text)
last_input source key [] = none
last_input source key ((name, value) ∷ entries) = elim (last_input source key entries) [
  | some later ↦ some later
  | none ↦ if text_eq (stored_key name) key then some (value, stored_source name source) else none
]

pub last_option : Text → Dict → Option (Text × Text)
last_option key [] = none
last_option key ((name, value) ∷ entries) = elim (last_option key entries) [
  | some later ↦ some later
  | none ↦ if text_eq name key then some (value, lit "cli") else none
]

pair_if :
    (b : Bool) (v s x y : Option Text)
    → ◌≡◌ {A = Found} (if b then v else x, if b then s else y) (if b then (v, s) else (x, y))
pair_if true v s x y = refl
pair_if false v s x y = refl

found_nothing : (key : Text) → found key no_values ≡ (none, none)
unfolding get
found_nothing key = refl

found-insert_value :
    (name value source key : Text) (resolved : ResolvedValues)
    → found key (insert_value name value source resolved)
      ≡ (if text_eq name key then (some value, some source) else found key resolved)
unfolding insert_value
found-insert_value name value source key resolved =
    rw (get-insert name key value resolved.values, get-insert name key source resolved.sources)
      (pair_if (text_eq name key) (some value) (some source) (get key resolved.values)
        (get key resolved.sources))

-- One entry in front of the others.
over_entry :
    (later : Option (Text × Text)) (same : Bool) (value source : Text) (below : Found)
    → over later (if same then (some value, some source) else below)
      ≡ over
          (elim later [ some e ↦ some e | none ↦ if same then some (value, source) else none ])
          below
over_entry (some e) same value source below = refl
over_entry none true value source below = refl
over_entry none false value source below = refl

found-insert_inputs :
    (source key : Text) (entries : List (Text × Text)) (resolved : ResolvedValues)
    → found key (insert_inputs source entries resolved)
      ≡ over (last_input source key entries) (found key resolved)
unfolding insert_inputs insert_input last_input
found-insert_inputs source key [] resolved = refl
found-insert_inputs source key ((name, value) ∷ entries) resolved =
    found-insert_inputs source key entries _
    ∙ ap (over (last_input source key entries))
        (found-insert_value (stored_key name) value (stored_source name source) key resolved)
    ∙ over_entry (last_input source key entries) (text_eq (stored_key name) key) value
        (stored_source name source) (found key resolved)

found-insert_cli :
    (key : Text) (entries : Dict) (resolved : ResolvedValues)
    → found key (insert_cli entries resolved) ≡ over (last_option key entries) (found key resolved)
unfolding insert_cli last_option
found-insert_cli key [] resolved = refl
found-insert_cli key ((name, value) ∷ entries) resolved =
    found-insert_cli key entries _
    ∙ ap (over (last_option key entries)) (found-insert_value name value (lit "cli") key resolved)
    ∙ over_entry (last_option key entries) (text_eq name key) value (lit "cli") (found key resolved)

module _ (vars : List (Text × Text)) (read : Text → Text ⊎ Text) (order : Dict → List (Text × Text))
    (cli : CliConfig) where
  -- What the process environment has for a key, where it is to be read.
  pub of_process : Text → Option (Text × Text)
  of_process key =
      if cli.use_process_env
      then last_input (lit "process-env") key (select_where is_filled vars)
      else none

  -- What the file has for it: nothing without a file, or if the file cannot be read.
  pub of_file : Text → Option (Text × Text)
  of_file key = elim cli.env_file [
    | none ↦ none
    | some path ↦ elim (load_env_file path (read path)) [
      | err e ↦ none
      | ok entries ↦ last_input (lit "env-file:" ++ path) key (order entries)
    ]
  ]

  found-from_process_env :
      (key : Text)
      → found key (from_process_env cli vars no_values) ≡ over (of_process key) (none, none)
  unfolding from_process_env of_process
  found-from_process_env key = elim (Bool-cases cli.use_process_env) [
    | inl used ↦ rw used (
        found-insert_inputs _ key (select_where is_filled vars) no_values
        ∙ ap (over (last_input _ key (select_where is_filled vars))) (found_nothing key))
    | inr unused ↦ rw unused (found_nothing key)
  ]

  -- The value of a key, and the source that is reported for it, come from the command line if an
  -- option gives it, else from the file, else from the environment of the process if that is read
  -- and the value is not blank; else the key has neither. Within a source the last entry counts.
  pub found-resolve_values :
      (resolved : ResolvedValues) (key : Text)
      → resolve_values vars read order cli ≡ ok resolved
      → found key resolved
        ≡ over
            (last_option key cli.values)
            (over (of_file key) (over (of_process key) (none, none)))
  unfolding resolve_values of_file
  found-resolve_values resolved key h = elim (Option-cases cli.env_file) [
    | inl no_file ↦
        let same = rw (no_file, resolve_values) at h in
        let e : insert_cli cli.values (from_process_env cli vars no_values) ≡ resolved = cc same in
        let nothing : of_file key ≡ none = rw (no_file, of_file) refl in
        rw nothing (
          ap (found key) (sym e)
          ∙ found-insert_cli key cli.values (from_process_env cli vars no_values)
          ∙ ap (over (last_option key cli.values)) (found-from_process_env key))
    | inr (path, file) ↦ elim (Result-cases (load_env_file path (read path))) [
      | inr (e, bad) ↦ absurd (let k = rw (file, bad, resolve_values) at h in cc k)
      | inl (entries, good) ↦
          let base = from_process_env cli vars no_values in
          let name = lit "env-file:" ++ path in
          let same = rw (file, good, resolve_values) at h in
          let e : insert_cli cli.values (insert_inputs name (order entries) base) ≡ resolved =
            cc same in
          let there : of_file key ≡ last_input name key (order entries) =
            rw (file, good, of_file) refl in
          rw there (
            ap (found key) (sym e)
            ∙ found-insert_cli key cli.values (insert_inputs name (order entries) base)
            ∙ ap (over (last_option key cli.values)) (
                found-insert_inputs name key (order entries) base
                ∙ ap (over (last_input name key (order entries))) (found-from_process_env key)))
    ]
  ]
