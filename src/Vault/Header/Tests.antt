-- ===== src/Vault/Header/Tests.antt =====
-- A LUKS1 header as text.
use lukscrypt.Prelude.{Text, List, All, ◌++◌, text, text_beq, [], ◌∷◌, ◌≡◌, refl, strip_prefix}
use lukscrypt.Vault.Header.{dump_field}
use lukscrypt.Vault.Header.Fields.{IsOther, print_lines, dump_field-print_lines}

-- The first lines of a LUKS1 header.
abbrev first_lines : List Text
first_lines =
    text "LUKS header information for /vaults/private.img"
    ∷ []
    ∷ text "Version:        1"
    ∷ text "Cipher name:    aes"
    ∷ text "Cipher mode:    xts-plain64"
    ∷ []

first_lines-IsOther : All (IsOther (text "Hash spec")) first_lines
unfolding text strip_prefix
first_lines-IsOther =
    ((refl, refl), ((refl, refl), ((refl, refl), ((refl, refl), ((refl, refl), tt)))))

dump_field-print_lines_example :
    (dump_field
        (print_lines first_lines (
          text "Hash spec"
          ++ b':' ∷ (text "      " ++ (text "sha256" ++ text "\nPayload offset: 4096"))))
        (text "Hash spec")
      ≡ text "sha256")
    × (dump_field (print_lines first_lines []) (text "Hash spec") ≡ [])
unfolding text
dump_field-print_lines_example =
    dump_field-print_lines (text "Hash spec") first_lines (text "      ") (text "sha256")
      (text "\nPayload offset: 4096") refl first_lines-IsOther (λ e. cc) refl (λ e. cc) refl refl

-- After an empty value the first word of the next line is read.
empty_value_test :
    dump_field (text "Cipher mode:  \t\nHash spec:      sha256\n") (text "Cipher mode")
    ≡ text "Hash"
unfolding dump_field text text_beq strip_prefix
empty_value_test = refl
