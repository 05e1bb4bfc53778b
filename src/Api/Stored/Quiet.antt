-- ===== src/Api/Stored/Quiet.antt =====
-- Programs that leave the tables alone.
use lukscrypt.Prelude.{List, Text, Bool, true, false, ◌≡◌, refl, sym, subst, nat_eq, if◌then◌else◌}
use lukscrypt.Sys.{Vault, Call, Answer, Prog, give, ◌>>=◌}
use lukscrypt.Sys.Ensures.{run}
use lukscrypt.Sys.Quiet.{is_state, IsQuiet}
use lukscrypt.Db.{Db}
use lukscrypt.Api.Reply.{Reply}
use lukscrypt.Api.Stored.{answer, is_done}

abbrev pub idle : (c : Call) → Answer c → Unit {0} → Unit {0}
idle c r s = s

module _ {W : Type 0} (now : Text) (scan : List Vault → List Vault)
    (os : (c : Call) → W → Answer c × W) where
  answer-quiet :
      (c : Call) (w : W) (d : Db) → is_state c ≡ false → (answer now scan os c (w, d)).1.1 ≡ d
  answer-quiet (Call.insert_vault n p g m x) w d e = cc
  answer-quiet Call.list_vaults w d e = cc
  answer-quiet (Call.find_vault id) w d e = cc
  answer-quiet (Call.find_vault_named n) w d e = cc
  answer-quiet (Call.delete_record id) w d e = cc
  answer-quiet (Call.update_size id g) w d e = cc
  answer-quiet (Call.track id) w d e = cc
  answer-quiet (Call.untrack id) w d e = cc
  answer-quiet _ w d e = refl

  -- The tables at the end are as meant if the operation was confirmed, and as before if not.
  abbrev pub Stores : {A : Type 0} → (Db → Db) → Db → Reply A × (W × Db) × Unit {0} → Type 0
  Stores effect d (r, (w', d'), s) = d' ≡ (if is_done r then effect d else d)

  pub run-quiet :
      {A B : Type 0} (P : B × (W × Db) × Unit {0} → Type 0) (m : Prog A) (f : A → Prog B) (w : W)
      (d : Db)
      → IsQuiet m
      → ((w' : W) (a : A) → P (run (answer now scan os) idle (f a) (w', d) tt))
      → P (run (answer now scan os) idle (m >>= f) (w, d) tt)
  run-quiet P (give a) f w d q h = h w a
  run-quiet P (Prog.sys c k) f w d (e, q) h =
      let (r, (w', d')) = answer now scan os c (w, d) in
      subst (λ d''. P (run (answer now scan os) idle (k r >>= f) (w', d'') tt))
        (sym (answer-quiet c w d e)) (run-quiet P (k r) f w' d (q r) h)

  pub Stores-if :
      {A : Type 0} (effect : Db → Db) (b : Bool) (m k : Prog (Reply A)) (w : W) (d : Db)
      → Stores effect d (run (answer now scan os) idle m (w, d) tt)
      → Stores effect d (run (answer now scan os) idle k (w, d) tt)
      → Stores effect d (run (answer now scan os) idle (if b then m else k) (w, d) tt)
  Stores-if effect true m k w d h h' = h
  Stores-if effect false m k w d h h' = h'
