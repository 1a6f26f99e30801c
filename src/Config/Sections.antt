-- ===== src/Config/Sections.antt =====
-- config/config.go: the sections db, fees, timing and signer of a configuration.
use mainstay.Prelude.{String}
use mainstay.Prelude.Int.{ℤ, negsuc}
use mainstay.Prelude.Panic.{maybe}
use mainstay.Text.{atoi}
use mainstay.Wire.{Result, ok, ◌then_ok◌}
use mainstay.Fees.{FeesConfig}
use mainstay.Config.{Conf, get_param_from_conf, try_get_param_from_conf}

pub record DbConfig : Type 0 where
  pub user : String
  pub password : String
  pub host : String
  pub port : String
  pub name : String

pub record TimingConfig : Type 0 where
  pub new_attestation_minutes : ℤ
  pub handle_unconfirmed_minutes : ℤ

pub record SignerConfig : Type 0 where
  pub url : String

-- A number that is -1 if the text is none.
unfoldable pub int_or_unset : String → ℤ
unfolding atoi
int_or_unset s = maybe (atoi s) (negsuc 0) (λ n. n)

module _ (getenv : String → String) where
  unfoldable pub get_db_config : Conf → Result DbConfig
  unfolding get_param_from_conf
  get_db_config conf = get_param_from_conf getenv "db" "user" conf then_ok λ user.
      get_param_from_conf getenv "db" "password" conf then_ok λ password.
      get_param_from_conf getenv "db" "host" conf then_ok λ host.
      get_param_from_conf getenv "db" "port" conf then_ok λ port.
      get_param_from_conf getenv "db" "name" conf then_ok λ name.
      ok (record { user = user; password = password; host = host; port = port; name = name })

  unfoldable pub get_fees_config : Conf → FeesConfig
  unfolding try_get_param_from_conf int_or_unset
  get_fees_config conf = record {
    min_fee = int_or_unset (try_get_param_from_conf getenv "fees" "minFee" conf);
    max_fee = int_or_unset (try_get_param_from_conf getenv "fees" "maxFee" conf);
    fee_increment = int_or_unset (try_get_param_from_conf getenv "fees" "feeIncrement" conf);
  }

  unfoldable pub get_timing_config : Conf → TimingConfig
  unfolding try_get_param_from_conf int_or_unset
  get_timing_config conf = record {
    new_attestation_minutes =
        int_or_unset (try_get_param_from_conf getenv "timing" "newAttestationMinutes" conf);
    handle_unconfirmed_minutes =
        int_or_unset (try_get_param_from_conf getenv "timing" "handleUnconfirmedMinutes" conf);
  }

  -- The first reading is only for its error.
  unfoldable pub get_signer_config : Conf → Result SignerConfig
  unfolding get_param_from_conf try_get_param_from_conf
  get_signer_config conf = get_param_from_conf getenv "signer" "url" conf then_ok λ _.
      ok (record { url = try_get_param_from_conf getenv "signer" "url" conf })
