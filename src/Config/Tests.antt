-- ===== src/Config/Tests.antt =====
-- Runs of the configuration code, and its theorems at a configuration.
use mainstay.Prelude.{
  ◌≡◌, refl, true, false, ◌||◌, some, none, str_eq, [], ◌∷◌, String, if◌then◌else◌,
}
use mainstay.Prelude.Int.{pos, negsuc}
use mainstay.Wire.{ok, err}
use mainstay.Config.{Conf, ClientCfg, string, other, get_param_from_conf, try_get_param_from_conf}
use mainstay.Config.Rpc.{ConnConfig, regression_net_params}
use mainstay.Config.Sections.{get_fees_config}
use mainstay.Config.Load.{
  Config, Outside, ocean, Flags, new_config, new_client_from_config, init, with_genesis, is_empty,
}
use mainstay.Config.Params.{ok_or, try_get_param-get_param}
use mainstay.Config.Chaincodes.{with_genesis-new_config}

-- One variable is set.
abbrev getenv : String → String
getenv name = if str_eq name "RPC_USER" then "alice" else ""

abbrev main_section : ClientCfg
main_section =
    ("rpcurl", string "localhost:18443")
    ∷ ("rpcuser", string "RPC_USER")
    ∷ ("rpcpass", string "pass")
    ∷ ("chain", string "regtest")
    ∷ []

abbrev staychain_section : ClientCfg
staychain_section =
    ("initTx", string "aa") ∷ ("initScript", string "51ae") ∷ ("regtest", string "1") ∷ []

abbrev fees_section : ClientCfg
fees_section = ("minFee", string "5") ∷ ("maxFee", other) ∷ []

abbrev conf : Conf
conf =
    some (("main", main_section) ∷ ("staychain", staychain_section) ∷ ("fees", fees_section) ∷ [])

-- The client is the connection itself.
abbrev outside : Outside ConnConfig
outside = record { getenv = getenv; read_file = λ path. ok conf; new_client = λ c. ok c }

abbrev no_flags : Flags
no_flags = record {
  tx0 = "";
  script0 = "";
  chaincodes = "";
  addr_topup = "";
  script_topup = "";
  is_regtest = false;
}

fees_read :
    get_fees_config getenv conf
    ≡ record { min_fee = pos 5; max_fee = negsuc 0; fee_increment = negsuc 0 }
unfolding get_fees_config
fees_read = refl

-- A variable stands in for its value; a section that is missing gives no error, a value that is
-- no text does.
params_read :
    (get_param_from_conf getenv "main" "rpcuser" conf ≡ ok "alice")
    × (get_param_from_conf getenv "db" "user" conf ≡ ok "")
    × (get_param_from_conf getenv "fees" "maxFee" conf ≡ err "config value not found: maxFee")
unfolding get_param_from_conf
params_read = (refl, refl, refl)

abbrev loaded : Config ConnConfig
loaded = record {
  main_client = record { host = "localhost:18443"; user = "alice"; pass = "pass" };
  main_chain_cfg = regression_net_params;
  regtest = true;
  init_tx = "aa";
  init_pk = "";
  init_script = "51ae";
  init_chaincodes = "" ∷ [];
  topup_address = "";
  topup_script = "";
  topup_pk = "";
  topup_chaincodes = "" ∷ [];
  signer_config = record { url = "" };
  db_config = record { user = ""; password = ""; host = ""; port = ""; name = "" };
  fees_config = record { min_fee = pos 5; max_fee = negsuc 0; fee_increment = negsuc 0 };
  timing_config = record {
    new_attestation_minutes = negsuc 0;
    handle_unconfirmed_minutes = negsuc 0;
  };
}

loaded-eq : new_config outside (conf ∷ []) ≡ ok loaded
unfolding new_config
loaded-eq = refl

init-loaded : init outside loaded no_flags ≡ some (record loaded { regtest = false })
unfolding init
init-loaded = refl

client-loaded : new_client_from_config outside "main" false [] ≡ some (ocean loaded.main_client)
unfolding new_client_from_config
client-loaded = refl

try_get_no_text :
    try_get_param_from_conf getenv "fees" "maxFee" conf
    ≡ ok_or "" (get_param_from_conf getenv "fees" "maxFee" conf)
try_get_no_text = try_get_param-get_param getenv "fees" "maxFee" conf refl

-- No flag for the genesis is given, and the list of chaincodes is one empty text.
with_genesis-new_config_example :
    with_genesis no_flags loaded
    ≡ (if is_empty loaded.init_tx || is_empty loaded.init_script then none else some loaded)
with_genesis-new_config_example =
    with_genesis-new_config outside (conf ∷ []) loaded no_flags loaded-eq refl
