-- ===== src/Api/Stored.antt =====
-- internal/api/api.go over internal/db/db.go: the operations on a vault against a system whose
-- database is the tables of Db, with no failing connection.
pub mod Quiet
pub mod Effects
use lukscrypt.Prelude.{List, ℕ, Text, Bool, true, false, none, ◌≡◌, ◌==◌, nat_eq, if◌then◌else◌}
use lukscrypt.Prelude.Int.{pos, negsuc}
use lukscrypt.Sys.{Vault, Call, Answer, Prog, give, ◌>>=◌, ok}
use lukscrypt.Db.{Db, create_vault, get_vault, get_vault_by_name, delete_vault, update_vault_size}
use lukscrypt.Db.Vaults.{with_size}
use lukscrypt.Db.Listing.{list_vaults}
use lukscrypt.Api.Reply.{Reply, done, refusal}
use lukscrypt.Api.Operate.{delete_locked}
use lukscrypt.Api.Operate.Windows.{Op, perform}
use lukscrypt.Api.Grow.{Growth, grow_locked}

module _ {W : Type 0} (now : Text) (scan : List Vault → List Vault)
    (os : (c : Call) → W → Answer c × W) where
  -- The database answers its calls, its listing from the order `scan` of the rows; `os` answers the others.
  abbrev pub answer : (c : Call) → W × Db → Answer c × (W × Db)
  answer (Call.insert_vault name path g mount_point mapper_name) (w, d) =
      let (created, d') = create_vault now name path g mount_point mapper_name d in
      (created, (w, d'))
  answer Call.list_vaults (w, d) = (ok (list_vaults scan d), (w, d))
  answer (Call.find_vault (pos id)) (w, d) = (ok (get_vault id d), (w, d))
  answer (Call.find_vault (negsuc n)) (w, d) = (ok none, (w, d))
  answer (Call.find_vault_named name) (w, d) = (ok (get_vault_by_name name d), (w, d))
  answer (Call.delete_record (pos id)) (w, d) = (none, (w, delete_vault id d))
  answer (Call.delete_record (negsuc n)) (w, d) = (none, (w, d))
  answer (Call.update_size (pos id) g) (w, d) = (none, (w, update_vault_size id g d))
  answer (Call.update_size (negsuc n) g) (w, d) = (none, (w, d))
  answer c (w, d) = let (r, w') = os c w in (r, (w', d))

-- What is asked of the vault with an id, under `opMu`.
pub data Asked : Type 0 where
  performs : Op → Asked
  deletes : Asked
  grows : Growth → Asked

abbrev pub is_done : {A : Type 0} → Reply A → Bool
is_done (done a) = true
is_done (refusal status e) = false

abbrev confirmed : {A : Type 0} → Prog (Reply A) → Prog Bool
confirmed m = m >>= λ r. give (is_done r)

-- Whether it was confirmed.
unfoldable pub asked : Asked → ℕ → Vault → Prog Bool
unfolding perform delete_locked grow_locked
asked (performs op) id v = confirmed (perform op v)
asked deletes id v = confirmed (delete_locked (pos id) v)
asked (grows g) id v = confirmed (grow_locked (pos id) g v)

-- What becomes of the tables.
abbrev pub meant : Asked → ℕ → Db → Db
meant (performs op) id d = d
meant deletes id d = delete_vault id d
meant (grows g) id d = update_vault_size id g.size_gb d

abbrev HasSameRest : Db → Db → Type 0
HasSameRest d e =
    (e.tokens ≡ d.tokens) × (e.next_vault ≡ d.next_vault) × (e.next_token ≡ d.next_token)

-- What it means for the tables, by what a query for any id reads: only the row of the id has gone,
-- or only its size has changed. The tokens and the next ids stay.
abbrev pub IsMeant : Asked → ℕ → Db → Db → Type 0
IsMeant (performs op) id d e = e ≡ d
IsMeant deletes id d e =
    ((j : ℕ) → get_vault j e ≡ (if id == j then none else get_vault j d)) × HasSameRest d e
IsMeant (grows g) id d e =
    ((j : ℕ)
      → get_vault j e ≡ (if id == j then with_size g.size_gb (get_vault j d) else get_vault j d))
    × HasSameRest d e

-- An operation that is not confirmed has left the tables as they were.
abbrev pub IsAnswered : Bool → Asked → ℕ → Db → Db → Type 0
IsAnswered true a id d e = IsMeant a id d e
IsAnswered false a id d e = e ≡ d
