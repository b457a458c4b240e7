-- ===== src/Config/Cli.antt =====
-- `CliConfig::parse` of src/config.rs.
pub mod RoundTrip
use mathlib.Core.Option
use sage_wiki_bridge_wxo.Base.{
  ℕ, ◌==◌, Bool, true, false, not, ◌&&◌, ◌||◌, Option, none, some, List, [], ◌∷◌, ◌++◌, drop,
  is_some, if◌then◌else◌,
}
use sage_wiki_bridge_wxo.Text.{Text, lit, text_eq, starts_with}
use sage_wiki_bridge_wxo.Table.{first_where}
use sage_wiki_bridge_wxo.Error.{BridgeError, Result, ok, err}
use sage_wiki_bridge_wxo.Dict.{Dict, insert}
use sage_wiki_bridge_wxo.Config.Keys.{flag_specs}

pub data CliCommand : Type 0 where
  version status doctor health ready : CliCommand

pub record CliConfig : Type 0 where
  pub env_file : Option Text
  pub use_process_env : Bool
  pub help : Bool
  pub version : Bool
  pub verbose_version : Bool
  pub command : Option CliCommand
  pub values : Dict

abbrev pub no_options : CliConfig
no_options = record {
  env_file = none;
  use_process_env = false;
  help = false;
  version = false;
  verbose_version = false;
  command = none;
  values = [];
}

-- `split_once('=')`
unfoldable pub split_once : ℕ → Text → Option (Text × Text)
split_once char [] = none
split_once char (c ∷ t) =
    let rest = Option.map (λ (r : Text × Text). (c ∷ r.0, r.1)) (split_once char t) in
    if c == char then some ([], t) else rest

unfoldable pub command_of : Text → Option CliCommand
command_of arg =
    if text_eq arg (lit "version")
    then some CliCommand.version
    else if text_eq arg (lit "status")
    then some CliCommand.status
    else if text_eq arg (lit "doctor")
    then some CliCommand.doctor
    else if text_eq arg (lit "health")
    then some CliCommand.health
    else if text_eq arg (lit "ready")
    then some CliCommand.ready
    else none

-- The option that the next argument is the value of: `--env-file`, or the option of a key.
pub data Pending : Type 0 where
  env_file : Pending
  option : (flag key : Text) → Pending

unfoldable pub pending_flag : Pending → Text
pending_flag Pending.env_file = lit "--env-file"
pending_flag (option flag key) = flag

unfoldable pub find_key : Text → Option Text
find_key flag = Option.map (λ spec. spec.1) (first_where (λ spec. text_eq spec.0 flag) flag_specs)

-- An option of the table: its value stands in it, or is the next argument.
unfoldable pub read_option : CliConfig → Text → Option Text → Result (CliConfig × Option Pending)
unfolding find_key
read_option config flag inline_value = elim (find_key flag) [
  | none ↦ err (BridgeError.config (lit "unknown option: " ++ flag))
  | some key ↦ elim inline_value [
    | some value ↦ ok (record config { values = insert key value config.values }, none)
    | none ↦ ok (config, some (option flag key))
  ]
]

unfoldable pub read_long : CliConfig → Text → Result (CliConfig × Option Pending)
unfolding read_option split_once
read_long config arg = elim (split_once b'=' arg) [
  | some (flag, value) ↦ read_option config flag (some value)
  | none ↦ read_option config arg none
]

-- The arms of the match that are no command.
unfoldable pub read_other : CliConfig → Text → Result (CliConfig × Option Pending)
unfolding read_long
read_other config arg =
    if text_eq arg (lit "--help") || text_eq arg (lit "-h")
    then ok (record config { help = true }, none)
    else if text_eq arg (lit "--version")
    then ok (record config { version = true }, none)
    else if text_eq arg (lit "-V")
    then ok (record config { verbose_version = true }, none)
    else if text_eq arg (lit "--use-process-env")
    then ok (record config { use_process_env = true }, none)
    else if text_eq arg (lit "--env-file")
    then ok (config, some Pending.env_file)
    else if starts_with (lit "--") arg
    then read_long config arg
    else err (BridgeError.config (lit "unexpected argument: " ++ arg))

-- A command counts only where none was given.
unfoldable pub read_arg : CliConfig → Text → Result (CliConfig × Option Pending)
unfolding command_of read_other
read_arg config arg =
    if is_some (command_of arg) && not (is_some config.command)
    then ok (record config { command = command_of arg }, none)
    else read_other config arg

unfoldable pub store_value : CliConfig → Pending → Text → CliConfig
store_value config Pending.env_file value = record config { env_file = some value }
store_value config (option flag key) value = record config {
  values = insert key value config.values;
}

-- The loop, with the option whose value is still to be read (`next_arg_value`).
unfoldable pub parse_args : CliConfig → Option Pending → List Text → Result CliConfig
unfolding read_arg pending_flag store_value
parse_args config none [] = ok config
parse_args config (some pending) [] =
    err (BridgeError.config (pending_flag pending ++ lit " requires a value"))
parse_args config (some pending) (value ∷ args) =
    let rest = parse_args (store_value config pending value) none args in
    if starts_with (lit "--") value
    then err (BridgeError.config (pending_flag pending ++ lit " requires a value"))
    else rest
parse_args config none (arg ∷ args) = elim (read_arg config arg) [
  | err e ↦ err e
  | ok (config', pending) ↦ parse_args config' pending args
]

-- The first argument is the program's name.
unfoldable pub parse : List Text → Result CliConfig
unfolding parse_args
parse args = parse_args no_options none (drop 1 args)
