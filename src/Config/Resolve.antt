-- ===== src/Config/Resolve.antt =====
-- `runtime_config_report_from_args` of src/config.rs: how the sources of the configuration are
-- put together.
use mathlib.Core.Option
use sage_wiki_bridge_wxo.Base.{
  Bool, true, false, not, Option, none, some, List, [], ◌∷◌, ◌++◌, ◌⊎◌, if◌then◌else◌, unwrap_or,
}
use sage_wiki_bridge_wxo.Text.{Text, lit, text_eq, trim, is_empty}
use sage_wiki_bridge_wxo.Table.{first_where, select_where}
use sage_wiki_bridge_wxo.Dict.{Dict, get, insert}
use sage_wiki_bridge_wxo.Error.{Result, ok, err}
use sage_wiki_bridge_wxo.Config.Keys.{flag_specs, env_alias_specs}
use sage_wiki_bridge_wxo.Config.Cli.{CliConfig}
use sage_wiki_bridge_wxo.Config.EnvFile.{load_env_file}

pub record ResolvedValues : Type 0 where
  pub values : Dict
  pub sources : Dict

abbrev pub no_values : ResolvedValues
no_values = record { values = []; sources = [] }

-- `ResolvedValues::insert`
unfoldable pub insert_value : Text → Text → Text → ResolvedValues → ResolvedValues
insert_value key value source resolved = record {
  values = insert key value resolved.values;
  sources = insert key source resolved.sources;
}

unfoldable pub canonical_special_key : Text → Option Text
canonical_special_key key =
    if text_eq key (lit "WECHAT_APPID")
    then some (lit "WECHAT_APP_ID")
    else if text_eq key (lit "WECHAT_APPSECRET")
    then some (lit "WECHAT_APP_SECRET")
    else if text_eq key (lit "BRIDGE_VERSION")
    then some (lit "BRIDGE_VERSION")
    else Option.map (λ spec. spec.1) (first_where (λ spec. text_eq spec.1 key) flag_specs)

-- The key that a name stands for, and whether it is an alias.
unfoldable pub canonical_env_key : Text → Option (Text × Bool)
unfolding canonical_special_key
canonical_env_key key = elim (first_where (λ spec. text_eq spec.0 key) env_alias_specs) [
  | some spec ↦ some (spec.1, true)
  | none ↦ Option.map (λ canonical. (canonical, false)) (canonical_special_key key)
]

-- The key under which a name's value is stored, and the source that is noted with it.
unfoldable pub stored_key : Text → Text
stored_key key = elim (canonical_env_key key) [ none ↦ key | some found ↦ found.0 ]

unfoldable pub stored_source : Text → Text → Text
stored_source key source = elim (canonical_env_key key) [
  | none ↦ source
  | some found ↦ if found.1 then source ++ (lit " (" ++ (key ++ lit ")")) else source
]

unfoldable pub insert_input : Text → Text → Text → ResolvedValues → ResolvedValues
unfolding insert_value stored_key stored_source
insert_input key value source = insert_value (stored_key key) value (stored_source key source)

-- `for (key, value) in entries { resolved.insert_input(key, value, source) }`
unfoldable pub insert_inputs : Text → List (Text × Text) → ResolvedValues → ResolvedValues
unfolding insert_input
insert_inputs source [] resolved = resolved
insert_inputs source ((key, value) ∷ entries) resolved =
    insert_inputs source entries (insert_input key value source resolved)

-- `for (key, value) in cli.values { resolved.insert(key, value, "cli") }`
unfoldable pub insert_cli : Dict → ResolvedValues → ResolvedValues
unfolding insert_value
insert_cli [] resolved = resolved
insert_cli ((key, value) ∷ entries) resolved =
    insert_cli entries (insert_value key value (lit "cli") resolved)

unfoldable pub source : ResolvedValues → Text → Text
source resolved key = unwrap_or (lit "default") (get key resolved.sources)

unfoldable pub is_filled : Text × Text → Bool
is_filled entry = not (is_empty (trim entry.1))

-- `if cli.use_process_env`
unfoldable pub from_process_env : CliConfig → List (Text × Text) → ResolvedValues → ResolvedValues
unfolding insert_inputs is_filled
from_process_env cli vars resolved =
    if cli.use_process_env
    then insert_inputs (lit "process-env") (select_where is_filled vars) resolved
    else resolved

-- `vars` are the variables of the process, `read` what the file's reading gives, and `order` the
-- order in which the hash map of the file's entries is walked.
unfoldable pub resolve_values :
    List (Text × Text)
    → (Text → Text ⊎ Text)
    → (Dict → List (Text × Text))
    → CliConfig
    → Result ResolvedValues
unfolding from_process_env insert_cli
resolve_values vars read order cli =
    let base = from_process_env cli vars no_values in
    elim cli.env_file [
      | none ↦ ok (insert_cli cli.values base)
      | some path ↦ elim (load_env_file path (read path)) [
        | err e ↦ err e
        | ok entries ↦
            ok
              (insert_cli cli.values (insert_inputs (lit "env-file:" ++ path) (order entries) base))
      ]
    ]
