-- ===== src/Config/Chaincodes.antt =====
-- The lists of chaincodes in a configuration, and the check of them at the start of the program.
use Prim.Native.Char.{Char}
use mathlib.Core.Path.{subst}
use mainstay.Prelude.{
  ◌≡◌, refl, Bool, true, false, ◌||◌, none, some, List, [], ◌∷◌, String, ◌==◌, if◌then◌else◌,
  length, length-map, ◌<◌, arith,
}
use mainstay.Text.{split_commas, extend, trim_space}
use mainstay.Wire.{Result, ok, err, ◌then_ok◌}
use mainstay.Config.{Conf}
use mainstay.Config.Rpc.{get_rpc, get_chain_cfg_params}
use mainstay.Config.Sections.{get_db_config, get_signer_config}
use mainstay.Config.Load.{
  Config, Outside, Flags, is_empty, chaincode_list, staychain, default_conf, new_config, config_of,
  with_genesis,
}

extend-nonempty : (c : Char) (parts : List String) → 0 < length (extend c parts)
unfolding extend
extend-nonempty c [] = omega arith
extend-nonempty c (part ∷ parts) = omega arith

split_commas-nonempty : (s : String) → 0 < length (split_commas s)
unfolding split_commas
split_commas-nonempty String.[] = omega arith
split_commas-nonempty (String.◌∷◌ c s) = ground (arith, extend-nonempty c (split_commas s))

chaincode_list-nonempty : (s : String) → (length (chaincode_list s) == 0) ≡ false
unfolding chaincode_list
chaincode_list-nonempty s =
    ground (arith, length-map trim_space (split_commas s), split_commas-nonempty s)

without_last :
    {A : Type 0} (b : Bool) (a : A)
    → (if b || false then none else some a) ≡ (if b then none else some a)
without_last true a = refl
without_last false a = refl

-- The value of a result without an error.
abbrev Gives : {A : Type 0} → (A → Type 0) → Result A → Type 0
Gives P (ok a) = P a
Gives P (err e) = Unit {0}

then_ok-Gives :
    {A B : Type 0} (P : B → Type 0) (r : Result A) (f : A → Result B)
    → ((a : A) → Gives P (f a))
    → Gives P (r then_ok f)
then_ok-Gives P (ok a) f h = h a
then_ok-Gives P (err e) f h = tt

abbrev HasChaincodes : {Client : Type 0} → Config Client → Type 0
HasChaincodes c = (length c.init_chaincodes == 0) ≡ false

module _ {Client : Type 0} (outside : Outside Client) where
  config_of-Gives : (conf : Conf) → Gives HasChaincodes (config_of outside conf)
  unfolding config_of
  config_of-Gives conf =
      then_ok-Gives HasChaincodes (get_rpc outside.getenv outside.new_client "main" conf) _
        λ client.
          then_ok-Gives HasChaincodes (get_chain_cfg_params outside.getenv "main" conf) _ λ params.
            then_ok-Gives HasChaincodes (get_db_config outside.getenv conf) _ λ db.
              then_ok-Gives HasChaincodes (get_signer_config outside.getenv conf) _
                λ signer. chaincode_list-nonempty (staychain outside "initChaincodes" conf)

  new_config-Gives : (confs : List Conf) → Gives HasChaincodes (new_config outside confs)
  unfolding new_config
  new_config-Gives [] =
      then_ok-Gives HasChaincodes (default_conf outside) (config_of outside) config_of-Gives
  new_config-Gives (conf ∷ _) = config_of-Gives conf

  -- Whatever NewConfig reads, the start of the program does not notice that the chaincodes are
  -- missing: without one of the flags for the genesis it goes on, with the configuration as it
  -- is, exactly if the transaction and the script are given there.
  pub with_genesis-new_config :
      (confs : List Conf) (c : Config Client) (flags : Flags)
      → new_config outside confs ≡ ok c
      → (is_empty flags.tx0 || is_empty flags.script0 || is_empty flags.chaincodes) ≡ true
      → with_genesis flags c
        ≡ (if is_empty c.init_tx || is_empty c.init_script then none else some c)
  unfolding with_genesis
  with_genesis-new_config confs c flags loaded missing =
      let some_chaincodes : HasChaincodes c =
        subst (Gives HasChaincodes) loaded (new_config-Gives confs) in
      rw (missing, some_chaincodes) (without_last (is_empty c.init_tx || is_empty c.init_script) c)
