-- ===== src/Config.antt =====
-- config/jsonparser.go, and the readers of single parameters in config/configreader.go. The
-- configuration file stands in by what the JSON decoder gives for it, `none` for an error.
pub mod Rpc
pub mod Sections
pub mod Load
mod Tests
pub mod Chaincodes
pub mod Complete
pub mod Params
use mainstay.Prelude.{Option, none, some, List, [], ◌∷◌, String, str_eq, if◌then◌else◌}
use mainstay.Prelude.Panic.{maybe}
use mainstay.Text.{prefixed}
use mainstay.Wire.{Result, ok, err}

-- A value of the inner map: the code asks only whether it is a string.
pub data JsonValue : Type 0 where
  string : String → JsonValue
  other : JsonValue

abbrev pub ClientCfg : Type 0
ClientCfg = List (String × JsonValue)

abbrev pub Conf : Type 0
Conf = Option (List (String × ClientCfg))

-- A Go map with keys of text.
abbrev pub lookup : {A : Type 0} → String → List (String × A) → Option A
lookup key [] = none
lookup key ((name, value) ∷ rest) = if str_eq name key then some value else lookup key rest

abbrev pub error_config_name_not_found : String
error_config_name_not_found = "config name not found"

abbrev pub error_config_value_not_found : String
error_config_value_not_found = "config value not found"

abbrev or_error : {A : Type 0} → String → Option A → Result A
or_error message none = err message
or_error message (some a) = ok a

abbrev section : String → Conf → Option ClientCfg
section name none = none
section name (some j) = lookup name j

unfoldable pub get_cfg : String → Conf → Result ClientCfg
get_cfg name conf = or_error error_config_name_not_found (section name conf)

-- `val.(string)` of a value that may be missing.
abbrev pub as_string : Option JsonValue → Option String
as_string none = none
as_string (some (string s)) = some s
as_string (some other) = none

unfoldable pub get_value : String → ClientCfg → Result String
get_value key conf = or_error error_config_value_not_found (as_string (lookup key conf))

unfoldable pub try_get_value : String → ClientCfg → String
try_get_value key conf = maybe (as_string (lookup key conf)) "" (λ s. s)

-- An environment variable of that name, or the value itself if that is empty.
unfoldable pub from_env : (String → String) → String → String
from_env getenv value = if str_eq (getenv value) "" then value else getenv value

-- Go's `return` of an error that arose for a name, else the rest.
abbrev pub or_fail : {A B : Type 0} → String → Result A → (A → Result B) → Result B
or_fail name (err message) rest = err (prefixed message name)
or_fail name (ok a) rest = rest a

-- `getenv` is `os.Getenv`.
module _ (getenv : String → String) where
  abbrev param_in : String → Result ClientCfg → Result String
  param_in arg_name (err _) = ok ""
  param_in arg_name (ok cfg) =
      or_fail arg_name (get_value arg_name cfg) λ value. ok (from_env getenv value)

  unfoldable pub get_param_from_conf : String → String → Conf → Result String
  unfolding get_cfg get_value from_env
  get_param_from_conf base_name arg_name conf = param_in arg_name (get_cfg base_name conf)

  abbrev try_param_in : String → Result ClientCfg → String
  try_param_in arg_name (err _) = ""
  try_param_in arg_name (ok cfg) =
      let value = try_get_value arg_name cfg in
      if str_eq value "" then "" else from_env getenv value

  unfoldable pub try_get_param_from_conf : String → String → Conf → String
  unfolding get_cfg try_get_value from_env
  try_get_param_from_conf base_name arg_name conf = try_param_in arg_name (get_cfg base_name conf)
