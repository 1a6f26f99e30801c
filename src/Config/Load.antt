-- ===== src/Config/Load.antt =====
-- config/config.go: the Config struct, NewConfig and NewClientFromConfig; and the initialisation
-- of main.go, which sets a configuration from flags.
use Prim.Native.String.{◌++◌ as ◌⧺◌}
use mainstay.Prelude.{
  Bool, true, false, ◌&&◌, ◌||◌, not, Option, none, some, List, [], ◌∷◌, map, String, str_eq, ◌==◌,
  if◌then◌else◌, length,
}
use mainstay.Prelude.Panic.{maybe}
use mainstay.Text.{split_commas, trim_space}
use mainstay.Wire.{Result, ok, err, ◌then_ok◌}
use mainstay.Fees.{FeesConfig}
use mainstay.Config.{Conf, try_get_param_from_conf}
use mainstay.Config.Rpc.{ConnConfig, ChainParams, get_conf_file, get_rpc, get_chain_cfg_params}
use mainstay.Config.Sections.{
  DbConfig, TimingConfig, SignerConfig, get_db_config, get_fees_config, get_timing_config,
  get_signer_config,
}

pub record Config (Client : Type 0) : Type 0 where
  pub main_client : Client
  pub main_chain_cfg : ChainParams
  pub regtest : Bool
  pub init_tx : String
  pub init_pk : String
  pub init_script : String
  pub init_chaincodes : List String
  pub topup_address : String
  pub topup_script : String
  pub topup_pk : String
  pub topup_chaincodes : List String
  pub signer_config : SignerConfig
  pub db_config : DbConfig
  pub fees_config : FeesConfig
  pub timing_config : TimingConfig

-- The split at commas, with the whitespace of each part trimmed.
unfoldable pub chaincode_list : String → List String
unfolding split_commas trim_space
chaincode_list s = map trim_space (split_commas s)

-- What the code takes from outside: `os.Getenv`, the reading of a file with the JSON decoder
-- behind it, and `rpcclient.New`.
pub record Outside (Client : Type 0) : Type 0 where
  pub getenv : String → String
  pub read_file : String → Result Conf
  pub new_client : ConnConfig → Result Client

abbrev conf_path : String
conf_path = "/src/mainstay/config/conf.json"

pub data SidechainClient (Client : Type 0) : Type 0 where
  fake : SidechainClient Client
  ocean : Client → SidechainClient Client

module _ {Client : Type 0} (outside : Outside Client) where
  abbrev pub staychain : String → Conf → String
  staychain name conf = try_get_param_from_conf outside.getenv "staychain" name conf

  -- NewConfig behind the choice of the file.
  unfoldable pub config_of : Conf → Result (Config Client)
  unfolding chaincode_list get_rpc get_chain_cfg_params get_db_config get_signer_config
      get_fees_config get_timing_config try_get_param_from_conf
  config_of conf = get_rpc outside.getenv outside.new_client "main" conf then_ok λ main_client.
      get_chain_cfg_params outside.getenv "main" conf then_ok λ main_chain_cfg.
      get_db_config outside.getenv conf then_ok λ db_config.
      get_signer_config outside.getenv conf then_ok λ signer_config. ok (record {
        main_client = main_client;
        main_chain_cfg = main_chain_cfg;
        regtest = str_eq (staychain "regtest" conf) "1";
        init_tx = staychain "initTx" conf;
        init_pk = staychain "initPK" conf;
        init_script = staychain "initScript" conf;
        init_chaincodes = chaincode_list (staychain "initChaincodes" conf);
        topup_address = staychain "topupAddress" conf;
        topup_script = staychain "topupScript" conf;
        topup_pk = staychain "topupPK" conf;
        topup_chaincodes = chaincode_list (staychain "topupChaincodes" conf);
        signer_config = signer_config;
        db_config = db_config;
        fees_config = get_fees_config outside.getenv conf;
        timing_config = get_timing_config outside.getenv conf;
      })

  -- The file that is read if no configuration is given.
  abbrev pub default_conf : Result Conf
  default_conf = get_conf_file outside.read_file (outside.getenv "GOPATH" ⧺ conf_path)

  -- The variadic `customConf` is a list.
  unfoldable pub new_config : List Conf → Result (Config Client)
  unfolding config_of get_conf_file
  new_config [] = default_conf then_ok config_of
  new_config (conf ∷ _) = config_of conf

  -- `log.Error` ends the process: `none`.
  abbrev client_of : Result Client → Option (SidechainClient Client)
  client_of (err _) = none
  client_of (ok client) = some (ocean client)

  unfoldable pub new_client_from_config :
      String → Bool → List Conf → Option (SidechainClient Client)
  unfolding get_conf_file get_rpc
  new_client_from_config chain_name true custom_conf = some fake
  new_client_from_config chain_name false (conf ∷ _) =
      client_of (get_rpc outside.getenv outside.new_client chain_name conf)
  new_client_from_config chain_name false [] =
      client_of (default_conf then_ok get_rpc outside.getenv outside.new_client chain_name)

-- The variables that `parseFlags` fills.
pub record Flags : Type 0 where
  pub tx0 : String
  pub script0 : String
  pub chaincodes : String
  pub addr_topup : String
  pub script_topup : String
  pub is_regtest : Bool

abbrev pub is_empty : String → Bool
is_empty s = str_eq s ""

module _ {Client : Type 0} where
  abbrev with_topup : Flags → Config Client → Config Client
  with_topup flags c =
      if not (is_empty flags.addr_topup) && not (is_empty flags.script_topup)
      then record c { topup_address = flags.addr_topup; topup_script = flags.script_topup }
      else c

  -- The genesis of the staychain from the flags, or from the configuration if one is not given;
  -- `none` ends the process.
  unfoldable pub with_genesis : Flags → Config Client → Option (Config Client)
  unfolding chaincode_list
  with_genesis flags c =
      if is_empty flags.tx0 || is_empty flags.script0 || is_empty flags.chaincodes
      then (if is_empty c.init_tx || is_empty c.init_script || length c.init_chaincodes == 0
          then none
          else some c)
      else some (record c {
        init_tx = flags.tx0;
        init_script = flags.script0;
        init_chaincodes = chaincode_list flags.chaincodes;
      })

  abbrev set_up : Flags → Result (Config Client) → Option (Config Client)
  set_up flags (err _) = none
  set_up flags (ok c) =
      maybe (with_genesis flags c) none
        λ started. some (record (with_topup flags started) { regtest = flags.is_regtest })

  -- The function `init`, with the configuration of the regtest set-up as an argument.
  unfoldable pub init : Outside Client → Config Client → Flags → Option (Config Client)
  unfolding new_config with_genesis
  init outside test_config flags =
      if flags.is_regtest then some test_config else set_up flags (new_config outside [])
