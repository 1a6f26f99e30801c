-- ===== src/Client/NoTopup.antt =====
-- What becomes of a client without a topup script.
use mainstay.Prelude.{◌≡◌, refl, Bool, false, Option, none, List}
use mainstay.Prelude.Panic.{>>=-none}
use mainstay.Fees.{FeeResponse}
use mainstay.Config.Load.{Config, is_empty}
use mainstay.Script.Multisig.{parse_redeem_script}
use mainstay.Tweak.{Wif}
use mainstay.Client.Keys.{KeyTools}
use mainstay.Text.{bytes_of}
use mainstay.Client.New.{
  new_multisig_attest_client, new_attest_client, client_for, topup_key, parse_main_keys, first_flag,
}

module _ {Client Key Pub Address : Type 0} (t : KeyTools Key Pub Address) (fee_answer : FeeResponse)
    (config : Config Client) where
  new_multisig_no_topup :
      (is_signer : Bool) (wif wif_topup : Option Wif)
      → config.topup_script ≡ ""
      → new_multisig_attest_client t fee_answer config is_signer wif wif_topup ≡ none
  unfolding new_multisig_attest_client
  new_multisig_no_topup is_signer wif wif_topup missing =
      >>=-none (parse_redeem_script t.keys (bytes_of config.init_script)) _ λ _. rw missing refl

  client_for_no_topup :
      (is_signer : Bool) (wif_topup wif : Option Wif)
      → config.topup_script ≡ ""
      → is_empty config.init_script ≡ false
      → client_for t fee_answer config is_signer wif_topup wif ≡ none
  unfolding client_for
  client_for_no_topup is_signer wif_topup wif missing multisig =
      rw multisig (new_multisig_no_topup is_signer wif wif_topup missing)

  -- A client with a multisig script but without a topup script is never made, although the code
  -- only warns about a missing topup: the process ends, or panics on the empty script.
  pub new_attest_client_no_topup :
      (signer_flag : List Bool)
      → config.topup_script ≡ ""
      → is_empty config.init_script ≡ false
      → new_attest_client t fee_answer config signer_flag ≡ none
  unfolding new_attest_client
  new_attest_client_no_topup signer_flag missing multisig =
      let is_signer = first_flag signer_flag in
      >>=-none (topup_key t fee_answer config is_signer) _ λ pk_wif_topup.
        >>=-none (parse_main_keys t fee_answer config is_signer)
          (client_for t fee_answer config is_signer pk_wif_topup)
          λ pk_wif. client_for_no_topup is_signer pk_wif_topup pk_wif missing multisig
