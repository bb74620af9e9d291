-- ===== src/Config.antt =====
-- src/config.rs: the flags of the daemon.
pub mod Peers
pub mod Yaml
pub mod Scalars
pub mod FlagLaws
pub mod Args
pub mod Blames
use hopdns.Base.{
  ℕ, zero, suc, ◌+◌, Bool, true, false, not, ◌||◌, List, [], ◌∷◌, ◌++◌, Option, none, some, ◌==◌,
  if◌then◌else◌,
}
use hopdns.Errors.{
  Error, Result, ok, err, help, unknown_flag, missing_value, unexpected_argument, no_peer,
}
use hopdns.Server.{default_domain}
use hopdns.Text
use hopdns.Text.{Text, codes, text_eq, strip_prefix, split_once}
use hopdns.Text.Space.{trim}

abbrev pub default_listen : Text
default_listen = codes ":5353"

pub record Flags : Type 0 where
  pub listen : Text
  pub peers : List Text
  pub domain : Text
  pub api_key : Text
  pub config : Option Text

abbrev pub default_flags : Flags
default_flags = record {
  listen = default_listen;
  peers = [];
  domain = default_domain;
  api_key = [];
  config = none;
}

-- The argument without its one or two dashes.
unfoldable pub flag_of : Text → Option Text
flag_of arg = elim (strip_prefix arg (codes "--")) [
  | some flag ↦ some flag
  | none ↦ strip_prefix arg (codes "-")
]

-- The name, and the value behind `=`.
unfoldable pub name_of : Text → Text × Option Text
name_of flag = elim (split_once b'=' flag) [ some (n, v) ↦ (n, some v) | none ↦ (flag, none) ]

unfoldable pub is_help : Text → Bool
is_help name = text_eq name (codes "h") || text_eq name (codes "help")

unfoldable pub is_known : Text → Bool
is_known name =
    text_eq name (codes "listen")
    || text_eq name (codes "peer")
    || text_eq name (codes "domain")
    || text_eq name (codes "api-key")
    || text_eq name (codes "config")

-- The `match name` over a value.
unfoldable pub set_flag : Text → Text → Flags → Flags
set_flag name value f =
    if text_eq name (codes "listen")
    then record f { listen = value }
    else if text_eq name (codes "domain")
    then record f { domain = value }
    else if text_eq name (codes "api-key")
    then record f { api_key = value }
    else if text_eq name (codes "config")
    then record f { config = some value }
    else if not (Text.is_empty (trim value))
    then record f { peers = f.peers ++ trim value ∷ [] }
    else f

-- The loop. `waiting` is a flag, with its place, whose value is the next argument.
unfoldable pub parse_args : ℕ → Option (ℕ × Text) → List Text → Flags → Result Flags
parse_args at none [] f = ok f
parse_args at (some (place, name)) [] f = err (missing_value place)
parse_args at (some (place, name)) (value ∷ args) f =
    parse_args (at + 1) none args (set_flag name value f)
parse_args at none (arg ∷ args) f = elim (flag_of arg) [
  | none ↦ err (unexpected_argument at)
  | some flag ↦ elim (is_help ((name_of flag).0)) [
    | true ↦ err help
    | false ↦ elim (is_known ((name_of flag).0)) [
      | false ↦ err (unknown_flag at)
      | true ↦ elim ((name_of flag).1) [
        | some value ↦ parse_args (at + 1) none args (set_flag ((name_of flag).0) value f)
        | none ↦ parse_args (at + 1) (some (at, (name_of flag).0)) args f
      ]
    ]
  ]
]

-- `Flags::parse`.
unfoldable pub parse : List Text → Result Flags
parse args = elim (parse_args 0 none args default_flags) [
  | err e ↦ err e
  | ok f ↦ elim (f.peers) [ [] ↦ err no_peer | _ ∷ _ ↦ ok f ]
]
