-- ===== src/Config/Complete.antt =====
-- Which configurations NewConfig accepts.
use mainstay.Prelude.{Bool, true, false, ◌&&◌, List, [], ◌∷◌, String}
use mainstay.Prelude.Panic.{maybe}
use mainstay.Config.{ClientCfg, Conf, section}
use mainstay.Config.Params.{has_text}

abbrev has_all : List String → ClientCfg → Bool
has_all [] cfg = true
has_all (key ∷ keys) cfg = has_text key cfg && has_all keys cfg

abbrev db_keys : List String
db_keys = "user" ∷ "password" ∷ "host" ∷ "port" ∷ "name" ∷ []

abbrev signer_keys : List String
signer_keys = "url" ∷ []

-- The section main has its four texts, and the sections db and signer, where they stand, all
-- of theirs.
abbrev pub is_complete : Conf → Bool
is_complete conf =
    maybe (section "main" conf) false (has_all ("rpcurl" ∷ "rpcuser" ∷ "rpcpass" ∷ "chain" ∷ []))
    && maybe (section "db" conf) true (has_all db_keys)
    && maybe (section "signer" conf) true (has_all signer_keys)
