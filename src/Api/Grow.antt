-- ===== src/Api/Grow.antt =====
-- internal/api/api.go: the handler `growVault`. The answer of the rate limiter, the path's id and
-- the decoded body come as arguments; a missing row and a failing database have one reply.
pub mod Recorded
pub mod Attempts
use lukscrypt.Prelude.{
  ℕ, suc, Text, Bool, true, false, Option, none, some, text, ◌++◌, leb, ltb, if◌then◌else◌,
}
use lukscrypt.Prelude.Int.{ℤ, pos}
use lukscrypt.Prelude.Decimal.{itoa}
use lukscrypt.Sys.{
  Vault, Res, ok, err, Prog, give, ask, ◌>>=◌, find_vault, update_size, read_mounts,
}
use lukscrypt.Vault.Mounts.{is_unlocked, is_mounted}
use lukscrypt.Vault.Resize.{grow}
use lukscrypt.Api.Reply.{
  Reply, done, refusal, too_many, Credential, passphrase, key_file, choose, with_vault,
  VaultResponse, to_response,
}
use lukscrypt.Api.Operate.{with_id}

pub record GrowRequest : Type 0 where
  pub size_gb : ℤ
  pub password : Text
  pub key_file : Text

-- What a checked request asks for.
pub record Growth : Type 0 where
  pub size_gb : ℕ
  pub key : Text

check_size : (max_size_gb : ℕ) → ℤ → Res ℕ
check_size max_size_gb (pos (suc n)) =
    if ltb max_size_gb (suc n)
    then err (text "size_gb exceeds maximum allowed size of " ++ (itoa max_size_gb ++ text " GB"))
    else ok (suc n)
check_size max_size_gb _ = err (text "size_gb must be positive")

with_size : ℕ → Res Credential → Res Growth
with_size size_gb (ok (passphrase p)) = ok (record { size_gb = size_gb; key = p })
with_size size_gb (ok (key_file k)) = ok (record { size_gb = size_gb; key = k })
with_size size_gb (err e) = err e

unfoldable pub check_growth :
    (max_size_gb : ℕ) → (decode : Text → Option Text) → GrowRequest → Res Growth
unfolding check_size with_size choose
check_growth max_size_gb decode r = elim (check_size max_size_gb r.size_gb) [
  | err e ↦ err e
  | ok n ↦ with_size n (choose decode 8 r.password r.key_file)
]

database_error : {A : Type 0} → Prog (Reply A)
database_error = give (refusal 500 (text "database error"))

unfoldable pub show_updated : Res (Option Vault) → Prog (Reply VaultResponse)
unfolding to_response database_error
show_updated (ok (some v)) = do mounts ← ask read_mounts; r ← to_response v mounts; give (done r)
show_updated _ = database_error

unfoldable pub record_size : ℤ → ℕ → Prog (Reply VaultResponse)
unfolding show_updated
record_size id size_gb = do
  e ← ask (update_size id size_gb)
  elim e [
    | some _ ↦ give (refusal 500 (text "vault grew but updating the record failed"))
    | none ↦ ask (find_vault id) >>= show_updated
  ]

unfoldable pub grow_and_record : ℤ → Growth → Vault → Prog (Reply VaultResponse)
unfolding grow record_size
grow_and_record id g v = do
  e ← grow v g.size_gb g.key
  elim e [ some e ↦ give (refusal 422 e) | none ↦ record_size id g.size_gb ]

unfoldable pub grow_mounted : ℤ → Growth → Vault → Prog (Reply VaultResponse)
unfolding grow_and_record
grow_mounted id g v =
    if leb g.size_gb v.size_gb
    then give (
        refusal 422 (
          text "grow only — vault is already "
          ++ (itoa v.size_gb ++ text " GB; shrinking is not supported")))
    else grow_and_record id g v

-- Unlocked, and mounted as well.
unfoldable pub grow_unlocked : ℤ → Growth → Vault → (unlocked : Bool) → Prog (Reply VaultResponse)
unfolding is_mounted grow_mounted
grow_unlocked id g v false =
    give (refusal 409 (text "vault must be unlocked before growing — unlock and mount it first"))
grow_unlocked id g v true = do
  mounted ← is_mounted v
  if mounted
      then grow_mounted id g v
      else give (refusal 409 (text "vault must be mounted before growing"))

unfoldable pub grow_fresh : ℤ → Growth → Vault → Prog (Reply VaultResponse)
unfolding is_unlocked grow_unlocked
grow_fresh id g v = is_unlocked v >>= grow_unlocked id g v

unfoldable pub grow_found : ℤ → Growth → Res (Option Vault) → Prog (Reply VaultResponse)
unfolding grow_fresh database_error
grow_found id g (ok (some v)) = grow_fresh id g v
grow_found id g _ = database_error

-- Under `opMu`: the record is fetched again.
unfoldable pub grow_locked : ℤ → Growth → Vault → Prog (Reply VaultResponse)
unfolding grow_found
grow_locked id g stale = ask (find_vault id) >>= grow_found id g

unfoldable pub grow_checked : ℤ → Res Growth → Prog (Reply VaultResponse)
unfolding grow_locked with_vault
grow_checked id (err e) = give (refusal 400 e)
grow_checked id (ok g) = with_vault id (grow_locked id g)

unfoldable pub grow_body :
    (max_size_gb : ℕ)
    → (decode : Text → Option Text) → ℤ
    → Option GrowRequest
    → Prog (Reply VaultResponse)
unfolding grow_checked check_growth
grow_body max_size_gb decode id none = give (refusal 400 (text "invalid request body"))
grow_body max_size_gb decode id (some r) = grow_checked id (check_growth max_size_gb decode r)

unfoldable pub grow_vault :
    (max_size_gb : ℕ)
    → (decode : Text → Option Text) → (allowed : Bool) → (id : Text) → Option GrowRequest
    → Prog (Reply VaultResponse)
unfolding grow_body with_id
grow_vault max_size_gb decode allowed id body =
    if allowed then with_id id (λ n. grow_body max_size_gb decode n body) else too_many
