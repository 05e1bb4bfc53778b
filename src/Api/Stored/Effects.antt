-- ===== src/Api/Stored/Effects.antt =====
-- What the operations do to the tables.
use lukscrypt.Prelude.{
  ℕ, List, text, Text, Bool, true, false, Option, none, some, ◌≡◌, refl, sym, subst, ◌∙◌, arith,
  ◌==◌, nat_eq, leb, if◌then◌else◌, length,
}
use lukscrypt.Prelude.Int.{pos}
use lukscrypt.Sys.{Vault, Call, Answer, Prog, give, ok, by_context, always}
use lukscrypt.Sys.Ensures.{run, run-bind}
use lukscrypt.Sys.Quiet.{IsQuiet}
use lukscrypt.Db.{Db, get_vault, delete_vault, update_vault_size}
use lukscrypt.Db.Vaults.{deleted, resized, get_vault-change}
use lukscrypt.Vault.Mounts.{mounted_in, is_unlocked, is_mounted}
use lukscrypt.Vault.Access.{delete, lock_context, mount_vault}
use lukscrypt.Vault.Access.Quiet.{
  is_unlocked-IsQuiet, delete-IsQuiet, lock_context-IsQuiet, mount_vault-IsQuiet,
  unlock_with-IsQuiet,
}
use lukscrypt.Vault.Resize.{grow}
use lukscrypt.Vault.Resize.Quiet.{grow-IsQuiet}
use lukscrypt.Api.Reply.{Reply, refusal, Credential, passphrase, key_file, to_response}
use lukscrypt.Api.Reply.Quiet.{to_response-IsQuiet}
use lukscrypt.Api.Operate.{
  delete_locked, remove_vault, show_vault, unlock_credential, unlock_locked, lock_locked,
  mount_locked,
}
use lukscrypt.Api.Operate.Windows.{Op, unlocks, locks, mounts, perform}
use lukscrypt.Api.Grow.{
  Growth, show_updated, record_size, grow_and_record, grow_mounted, grow_unlocked, grow_fresh,
  grow_found, grow_locked,
}
use lukscrypt.Api.Stored.Quiet.{idle, Stores, run-quiet, Stores-if}
use lukscrypt.Api.Stored.{
  answer, Asked, performs, deletes, grows, is_done, confirmed, asked, meant, IsMeant, IsAnswered,
}

module _ {W : Type 0} (now : Text) (scan : List Vault → List Vault)
    (os : (c : Call) → W → Answer c × W) where
  show_updated_lem :
      (v : Vault) (w : W) (d : Db)
      → let (r, (_, d'), _) =
          run (answer now scan os) idle (show_updated (ok (some v))) (w, d) tt in
        (is_done r ≡ true) × (d' ≡ d)
  unfolding show_updated
  show_updated_lem v w d =
      let (table, w') = os Call.read_mounts w in
      run-quiet now scan os (λ (r, (_, d'), _). (is_done r ≡ true) × (d' ≡ d)) (to_response v table)
        _ w' d (to_response-IsQuiet v table) λ w'' resp. (refl, refl)

  delete_judged_lem :
      (id : ℕ) (v : Vault) (unlocked : Bool) (w : W) (d : Db)
      → Stores now scan os (delete_vault id) d (
          run
            (answer now scan os)
            idle
            (if unlocked
              then give (refusal 422 (text "vault must be locked before deletion"))
              else remove_vault (pos id) v)
            (w, d)
            tt)
  unfolding remove_vault
  delete_judged_lem id v true w d = refl
  delete_judged_lem id v false w d =
      let (r, w') = os (Call.untrack (pos id)) w in
      run-quiet now scan os (Stores now scan os (delete_vault id) d) (delete v) _ w'
        (delete_vault id d) (delete-IsQuiet v) λ w'' e. refl

  delete_lem :
      (id : ℕ) (v : Vault) (w : W) (d : Db)
      → Stores now scan os
          (delete_vault id)
          d
          (run (answer now scan os) idle (delete_locked (pos id) v) (w, d) tt)
  unfolding delete_locked
  delete_lem id v w d =
      run-quiet now scan os (Stores now scan os (delete_vault id) d) (is_unlocked v) _ w d
        (is_unlocked-IsQuiet v) λ w' u. delete_judged_lem id v u w' d

  eq_self : (n : ℕ) → (n == n) ≡ true
  eq_self n = ground arith

  module _ (id : ℕ) (g : Growth) where
    record_size_lem :
        (v : Vault) (w : W) (d : Db)
        → get_vault id d ≡ some v
        → Stores now scan os
            (update_vault_size id g.size_gb)
            d
            (run (answer now scan os) idle (record_size (pos id) g.size_gb) (w, d) tt)
    unfolding record_size
    record_size_lem v w d found =
        let after : get_vault id (update_vault_size id g.size_gb d)
            ≡ some (record v { size_gb = g.size_gb }) =
          get_vault-change (resized id g.size_gb) d id ∙ (rw (eq_self id, found) refl) in
        let (shown, same) =
          show_updated_lem (record v { size_gb = g.size_gb }) w
            (update_vault_size id g.size_gb d) in
        subst
          (λ o. Stores now scan os (update_vault_size id g.size_gb) d (
            run (answer now scan os) idle (show_updated (ok o))
              (w, update_vault_size id g.size_gb d) tt))
          (sym after) (rw shown same)

    grow_and_record_lem :
        (v : Vault) (w : W) (d : Db)
        → get_vault id d ≡ some v
        → Stores now scan os
            (update_vault_size id g.size_gb)
            d
            (run (answer now scan os) idle (grow_and_record (pos id) g v) (w, d) tt)
    unfolding grow_and_record
    grow_and_record_lem v w d found =
        run-quiet now scan os (Stores now scan os (update_vault_size id g.size_gb) d)
          (grow v g.size_gb g.key) _ w d (grow-IsQuiet v g.size_gb g.key)
          λ w'. elim [ some e ↦ refl | none ↦ record_size_lem v w' d found ]

    grow_mounted_lem :
        (v : Vault) (w : W) (d : Db)
        → get_vault id d ≡ some v
        → Stores now scan os
            (update_vault_size id g.size_gb)
            d
            (run (answer now scan os) idle (grow_mounted (pos id) g v) (w, d) tt)
    unfolding grow_mounted
    grow_mounted_lem v w d found =
        Stores-if now scan os (update_vault_size id g.size_gb) (leb g.size_gb v.size_gb) _
          (grow_and_record (pos id) g v) w d refl (grow_and_record_lem v w d found)

    grow_unlocked_lem :
        (v : Vault) (unlocked : Bool) (w : W) (d : Db)
        → get_vault id d ≡ some v
        → Stores now scan os
            (update_vault_size id g.size_gb)
            d
            (run (answer now scan os) idle (grow_unlocked (pos id) g v unlocked) (w, d) tt)
    unfolding grow_unlocked is_mounted
    grow_unlocked_lem v false w d found = refl
    grow_unlocked_lem v true w d found =
        let (table, w') = os Call.read_mounts w in
        Stores-if now scan os (update_vault_size id g.size_gb) (mounted_in v.mount_point table)
          (grow_mounted (pos id) g v) _ w' d (grow_mounted_lem v w' d found) refl

    grow_found_lem :
        (o : Option Vault) (w : W) (d : Db)
        → get_vault id d ≡ o
        → Stores now scan os
            (update_vault_size id g.size_gb)
            d
            (run (answer now scan os) idle (grow_found (pos id) g (ok o)) (w, d) tt)
    unfolding grow_found grow_fresh
    grow_found_lem none w d found = refl
    grow_found_lem (some v) w d found =
        run-quiet now scan os (Stores now scan os (update_vault_size id g.size_gb) d)
          (is_unlocked v) (grow_unlocked (pos id) g v) w d (is_unlocked-IsQuiet v)
          λ w' u. grow_unlocked_lem v u w' d found

  show_vault_lem :
      (v : Vault) (w : W) (d : Db)
      → (run (answer now scan os) idle (show_vault v) (w, d) tt).1.1 ≡ d
  unfolding show_vault
  show_vault_lem v w d =
      let (table, w') = os Call.read_mounts w in
      run-quiet now scan os (λ (r, (_, d'), _). d' ≡ d) (to_response v table) _ w' d
        (to_response-IsQuiet v table) λ w'' resp. refl

  unlock_credential-IsQuiet : (v : Vault) (c : Credential) → IsQuiet (unlock_credential v c)
  unfolding unlock_credential
  unlock_credential-IsQuiet v (passphrase p) = unlock_with-IsQuiet by_context v p none
  unlock_credential-IsQuiet v (key_file k) = unlock_with-IsQuiet by_context v k (some (length k))

  perform_lem :
      (op : Op) (v : Vault) (w : W) (d : Db)
      → (run (answer now scan os) idle (perform op v) (w, d) tt).1.1 ≡ d
  unfolding perform unlock_locked lock_locked mount_locked
  perform_lem (unlocks c) v w d =
      run-quiet now scan os (λ (r, (_, d'), _). d' ≡ d) (unlock_credential v c) _ w d
        (unlock_credential-IsQuiet v c)
        λ w'. elim [ some e ↦ refl | none ↦ show_vault_lem v (os (Call.track (pos v.id)) w').1 d ]
  perform_lem locks v w d =
      run-quiet now scan os (λ (r, (_, d'), _). d' ≡ d) (lock_context always v) _ w d
        (lock_context-IsQuiet always v)
        λ w'. elim [ some e ↦ refl | none ↦ show_vault_lem v (os (Call.untrack (pos v.id)) w').1 d ]
  perform_lem mounts v w d =
      run-quiet now scan os (λ (r, (_, d'), _). d' ≡ d) (mount_vault v) _ w d
        (mount_vault-IsQuiet v) λ w'. elim [ some e ↦ refl | none ↦ show_vault_lem v w' d ]

  confirmed_lem :
      {A : Type 0} (effect : Db → Db) (m : Prog (Reply A)) (w : W) (d : Db)
      → Stores now scan os effect d (run (answer now scan os) idle m (w, d) tt)
      → let (is_confirmed, (_, d'), _) = run (answer now scan os) idle (confirmed m) (w, d) tt in
        d' ≡ (if is_confirmed then effect d else d)
  confirmed_lem effect m w d h = rw (run-bind (answer now scan os) idle m _ (w, d) tt) h

  same_lem : (b : Bool) (d' d : Db) → d' ≡ d → d' ≡ (if b then d else d)
  same_lem true d' d h = h
  same_lem false d' d h = h

meant-IsMeant : (a : Asked) (id : ℕ) (d : Db) → IsMeant a id d (meant a id d)
unfolding delete_vault update_vault_size
meant-IsMeant (performs op) id d = refl
meant-IsMeant deletes id d = (λ j. get_vault-change (deleted id) d j, (refl, refl, refl))
meant-IsMeant (grows g) id d =
    (λ j. get_vault-change (resized id g.size_gb) d j, (refl, refl, refl))

answered :
    (is_confirmed : Bool) (a : Asked) (id : ℕ) (d e : Db)
    → e ≡ (if is_confirmed then meant a id d else d)
    → IsAnswered is_confirmed a id d e
answered true a id d e h = subst (λ x. IsMeant a id d x) (sym h) (meant-IsMeant a id d)
answered false a id d e h = h

-- Over tables that answer the database's calls, and whatever the rest of the system answers: an
-- unlock, lock or mount leaves the tables as they are; after a deletion that is confirmed a query
-- for its id finds no row, and after a growth that is confirmed it reads the new size in the row of
-- its id, while queries for other ids read what they did and the tokens stay; an operation that is
-- refused has left the tables as they were.
pub asked-IsAnswered :
    {W : Type 0} (now : Text) (scan : List Vault → List Vault) (os : (c : Call) → W → Answer c × W)
    (a : Asked) (id : ℕ) (v : Vault) (w : W) (d : Db)
    → let (is_confirmed, (_, e), _) = run (answer now scan os) idle (asked a id v) (w, d) tt in
      IsAnswered is_confirmed a id d e
unfolding asked
asked-IsAnswered now scan os (performs op) id v w d = answered _ (performs op) id d _ (
    confirmed_lem now scan os (λ d'. d') (perform op v) w d
      (same_lem now scan os _ _ d (perform_lem now scan os op v w d)))
asked-IsAnswered now scan os deletes id v w d = answered _ deletes id d _ (
    confirmed_lem now scan os (delete_vault id) (delete_locked (pos id) v) w d
      (delete_lem now scan os id v w d))
asked-IsAnswered now scan os (grows g) id v w d = answered _ (grows g) id d _ (
    confirmed_lem now scan os (update_vault_size id g.size_gb) (grow_locked (pos id) g v) w d
      (grow_found_lem now scan os id g (get_vault id d) w d refl))
