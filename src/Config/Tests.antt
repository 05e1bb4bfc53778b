-- ===== src/Config/Tests.antt =====
-- The configuration at concrete inputs.
use lukscrypt.Prelude.{true, none, some, [], ◌∷◌, ◌≡◌, refl, text, text_beq, split}
use lukscrypt.Prelude.Int.{pos}
use lukscrypt.Prelude.Decimal.{parse_int}
use lukscrypt.Config.{parse_bool, parse_list, parse_max_size}

config_tests :
    (parse_list (text "/a, ,/b") (text "/d") ≡ text "/a" ∷ text "/b" ∷ [])
    × (parse_bool (text "TRUE") true ≡ some true)
    × (parse_bool (text "yes") true ≡ none)
    × (parse_max_size (text "-1") (pos 5) ≡ none)
    × (parse_max_size [] (pos 5) ≡ some (pos 5))
unfolding parse_list parse_bool parse_max_size text text_beq split parse_int
config_tests = (refl, refl, refl, refl, refl)
