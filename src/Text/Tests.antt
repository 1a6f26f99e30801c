-- ===== src/Text/Tests.antt =====
-- Runs of the functions on text.
use mainstay.Prelude.{◌≡◌, refl, none, some, [], ◌∷◌, String}
use mainstay.Prelude.Int.{pos, negsuc}
use mainstay.Text.{prefixed, split_commas, trim_space, atoi}

split_commas-two : split_commas "ab, cd," ≡ "ab" ∷ " cd" ∷ "" ∷ []
unfolding split_commas
split_commas-two = refl

trim_space-inner : trim_space " a b  " ≡ "a b"
unfolding trim_space
trim_space-inner = refl

atoi-signed : atoi "-12" ≡ some (negsuc 11)
unfolding atoi
atoi-signed = refl

atoi-plain : atoi "0340" ≡ some (pos 340)
unfolding atoi
atoi-plain = refl

atoi-bad : atoi "1a" ≡ none
unfolding atoi
atoi-bad = refl

atoi-large : atoi "9223372036854775808" ≡ none
unfolding atoi
atoi-large = refl

prefixed-two :
    ◌≡◌ {A = String} (prefixed "config value not found" "url") "config value not found: url"
prefixed-two = refl
