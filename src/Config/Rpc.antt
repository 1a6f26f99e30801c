-- ===== src/Config/Rpc.antt =====
-- config/configreader.go: the RPC client and the chain parameters of a section.
use mainstay.Prelude.{String, str_eq, if◌then◌else◌}
use mainstay.Text.{prefixed}
use mainstay.Wire.{Result, ok, err}
use mainstay.Config.{Conf, get_cfg, get_value, from_env, or_fail}

abbrev pub error_rpc_connection_failure : String
error_rpc_connection_failure = "failed connecting to rpc client"

-- The fields of `rpcclient.ConnConfig` that are not fixed.
pub record ConnConfig : Type 0 where
  pub host : String
  pub user : String
  pub pass : String

-- The variables of package chaincfg.
pub data ChainParams : Type 0 where
  regression_net_params test_net3_params main_net_params : ChainParams

-- `ioutil.ReadFile`, with the decoder behind it, is `read_file`.
unfoldable pub get_conf_file : (String → Result Conf) → String → Result Conf
get_conf_file read_file filepath = read_file filepath

abbrev pub connected : {Client : Type 0} → Result Client → Result Client
connected (err e) = err (prefixed e error_rpc_connection_failure)
connected (ok client) = ok client

module _ (getenv : String → String) where
  unfoldable pub get_rpc :
      {Client : Type 0} → (ConnConfig → Result Client) → String → Conf → Result Client
  unfolding get_cfg get_value from_env
  get_rpc new name conf = or_fail name (get_cfg name conf) λ cfg.
      or_fail "rpcurl" (get_value "rpcurl" cfg) λ url.
        or_fail "rpcuser" (get_value "rpcuser" cfg) λ user.
          or_fail "rpcpass" (get_value "rpcpass" cfg) λ pass. connected (
            new (record {
              host = from_env getenv url;
              user = from_env getenv user;
              pass = from_env getenv pass;
            }))

  chain_named : String → ChainParams
  chain_named chain =
      if str_eq chain "regtest"
      then regression_net_params
      else if str_eq chain "testnet"
      then test_net3_params
      else main_net_params

  unfoldable pub get_chain_cfg_params : String → Conf → Result ChainParams
  unfolding chain_named get_cfg get_value from_env
  get_chain_cfg_params name conf = or_fail name (get_cfg name conf) λ cfg.
      or_fail "chain" (get_value "chain" cfg) λ value. ok (chain_named (from_env getenv value))
