-- ===== src/Vault/Header/Attempts.antt =====
-- Reading a header tries no credential.
use lukscrypt.Prelude.{Text, refl, ◌==◌, text, text_eq}
use lukscrypt.Sys.{Vault, Res}
use lukscrypt.Sys.Ensures.{Exit-cases}
use lukscrypt.Sys.Attempts.{AtMost, AtMost-if}
use lukscrypt.Vault.Header.{Luks2Header, dump_details, dump_field}

pub dump_details-AtMost :
    (unmarshal : Text → Res Luks2Header) (v : Vault) → AtMost 0 (dump_details unmarshal v)
unfolding dump_details
dump_details-AtMost unmarshal v = (
  refl,
  Exit-cases _
      (λ out.
        AtMost-if 0 (dump_field out (text "Version") == text "2") _ _
          (refl, Exit-cases _ (λ out'. tt) λ out' e. tt)
          (AtMost-if 0 (dump_field out (text "Version") == text "1") _ _ tt tt))
      λ out e. tt,
)
