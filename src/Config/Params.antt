-- ===== src/Config/Params.antt =====
-- The two readers of a parameter, and when the one that may fail does.
use text.Mathlib.TextEquality.{eq_iff}
use mainstay.Prelude.{
  ◌≡◌, refl, Bool, true, false, ◌&&◌, String, str_eq, Option-cases, Bool-cases, inl, inr,
}
use mainstay.Prelude.Panic.{maybe}
use mainstay.Wire.{Result, ok, err, ◌then_ok◌}
use mainstay.Config.{
  ClientCfg, Conf, lookup, as_string, section, get_cfg, get_value, try_get_value, from_env, or_fail,
  get_param_from_conf, try_get_param_from_conf,
}

abbrev pub is_ok : {A : Type 0} → Result A → Bool
is_ok (ok _) = true
is_ok (err _) = false

abbrev pub ok_or : {A : Type 0} → A → Result A → A
ok_or a (ok b) = b
ok_or a (err _) = a

-- The section has a text under this name.
abbrev pub has_text : String → ClientCfg → Bool
has_text key cfg = maybe (as_string (lookup key cfg)) false (λ _. true)

pub is_ok-then_ok :
    {A B : Type 0} (r : Result A) (f : A → Result B) (b : Bool)
    → ((a : A) → is_ok (f a) ≡ b)
    → is_ok (r then_ok f) ≡ (is_ok r && b)
is_ok-then_ok (err e) f b h = refl
is_ok-then_ok (ok a) f b h = h a

pub is_ok-or_fail :
    {A B : Type 0} (name : String) (r : Result A) (f : A → Result B) (b : Bool)
    → ((a : A) → is_ok (f a) ≡ b)
    → is_ok (or_fail name r f) ≡ (is_ok r && b)
is_ok-or_fail name (err e) f b h = refl
is_ok-or_fail name (ok a) f b h = h a

pub is_ok-get_value :
    (key : String) (cfg : ClientCfg) → is_ok (get_value key cfg) ≡ has_text key cfg
unfolding get_value
is_ok-get_value key cfg = elim (Option-cases (as_string (lookup key cfg))) [
  | inl missing ↦ rw missing refl
  | inr (s, found) ↦ rw found refl
]

module _ (getenv : String → String) where
  -- GetParamFromConf fails only if the section is there and has no text under the name.
  pub is_ok-get_param :
      (base_name arg_name : String) (conf : Conf)
      → is_ok (get_param_from_conf getenv base_name arg_name conf)
        ≡ maybe (section base_name conf) true (has_text arg_name)
  unfolding get_param_from_conf get_cfg get_value
  is_ok-get_param base_name arg_name conf = elim (Option-cases (section base_name conf)) [
    | inl missing ↦ rw missing refl
    | inr (cfg, found) ↦ elim (Option-cases (as_string (lookup arg_name cfg))) [
      | inl no_text ↦ rw (found, no_text) refl
      | inr (s, text) ↦ rw (found, text) refl
    ]
  ]

  -- TryGetParamFromConf gives the value of GetParamFromConf, and the empty text where that
  -- fails; if the environment has no variable with an empty name.
  pub try_get_param-get_param :
      (base_name arg_name : String) (conf : Conf)
      → getenv "" ≡ ""
      → try_get_param_from_conf getenv base_name arg_name conf
        ≡ ok_or "" (get_param_from_conf getenv base_name arg_name conf)
  unfolding get_param_from_conf try_get_param_from_conf get_cfg get_value try_get_value from_env
  try_get_param-get_param base_name arg_name conf unset =
      elim (Option-cases (section base_name conf)) [
        | inl missing ↦ rw missing refl
        | inr (cfg, found) ↦ elim (Option-cases (as_string (lookup arg_name cfg))) [
          | inl no_text ↦ rw (found, no_text) refl
          | inr (s, text) ↦ elim (Bool-cases (str_eq s "")) [
            | inl empty ↦
                let s_empty : s ≡ "" = (eq_iff s "").0 empty in
                rw (found, text, s_empty, unset) refl
            | inr full ↦ rw (found, text, full) refl
          ]
        ]
      ]
