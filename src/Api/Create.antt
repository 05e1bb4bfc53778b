-- ===== src/Api/Create.antt =====
-- internal/api/api.go, `createVault`: the handler from the decoded body to its reply, the goroutine
-- that it starts, and the map of jobs with what removes from it. The steps of one request are taken
-- as one; the job's id comes as the hex of its random bytes, `none` if there is no randomness.
pub mod Account
pub mod Exclusive
pub mod Claims
pub mod Admitted
mod Tests
use lukscrypt.Prelude.{ℕ, zero, suc, Text, text_eq, Option, none, some, List, [], ◌∷◌, ◌++◌, text}
use lukscrypt.Prelude.Int.{ℤ, pos, negsuc}
use lukscrypt.Prelude.Dict.{Dict, insert, erase}
use lukscrypt.Sys.{Prog}
use lukscrypt.Vault.Create.{img_path}
use lukscrypt.Api.Reply.{Reply, done, refusal}
use lukscrypt.Api.Reserve.{Pending, NewVault, Dirs, check_new, reserve, release_pending}
use lukscrypt.Api.Background.{create_in_background}
use lukscrypt.Api.Events.{cleanup_jobs}

-- What the goroutine of a creation is started with.
pub record Launch : Type 0 where
  pub name : Text
  pub path : Text
  pub size_gb : ℕ
  pub password : Text
  pub mount_point : Text

-- The part of the handler's state that creations share: the reservations, the jobs by their id with
-- the time of their creation, and the goroutines that still run.
pub record Creations : Type 0 where
  pub pending : Pending
  pub jobs : Dict Text ℕ
  pub running : List Launch

-- `NewMux` makes the maps.
unfoldable pub no_creations : Creations
no_creations = record { pending = record { names = []; paths = [] }; jobs = []; running = [] }

-- The size has been found positive.
gigabytes : ℤ → ℕ
gigabytes (pos n) = n
gigabytes (negsuc n) = 0

unfoldable pub launched : NewVault → Launch
unfolding gigabytes
launched r = record {
  name = r.name;
  path = r.path;
  size_gb = gigabytes r.size_gb;
  password = r.password;
  mount_point = r.mount_dir ++ b'/' ∷ r.name;
}

-- `imgPath`, which `vault.Create` computes again.
unfoldable pub image_of : NewVault → Text
unfolding img_path
image_of r = img_path r.path r.name

-- The reply with the job's id has the status 202.
begin : (now : ℕ) → (random_hex : Option Text) → NewVault → Creations → Reply Text × Creations
unfolding release_pending image_of launched
begin now none r s = (
  refusal 500 (text "failed to generate job id"),
  record s { pending = release_pending r.name (image_of r) s.pending },
)
begin now (some id) r s =
    (done id, record s { jobs = insert id now s.jobs; running = launched r ∷ s.running })

with_reservation :
    (now : ℕ)
    → (random_hex : Option Text) → NewVault
    → Option Text × Pending
    → Creations
    → Reply Text × Creations
unfolding begin
with_reservation now random_hex r (some conflict, p) s =
    (refusal 409 conflict, record s { pending = p })
with_reservation now random_hex r (none, p) s = begin now random_hex r (record s { pending = p })

when_accepted :
    (now : ℕ)
    → (random_hex : Option Text) → NewVault
    → Option Text
    → Creations
    → Reply Text × Creations
unfolding with_reservation reserve image_of
when_accepted now random_hex r (some e) s = (refusal 400 e, s)
when_accepted now random_hex r none s =
    with_reservation now random_hex r (reserve r.name (image_of r) s.pending) s

-- The body is `none` if it cannot be decoded.
unfoldable pub create_vault :
    Dirs
    → (now : ℕ) → (random_hex : Option Text) → Option NewVault
    → Creations
    → Reply Text × Creations
unfolding when_accepted check_new
create_vault d now random_hex none s = (refusal 400 (text "invalid request body"), s)
create_vault d now random_hex (some r) s = when_accepted now random_hex r (check_new d r) s

-- What the goroutine does before it gives its reservations back.
unfoldable pub background : Launch → Prog (Unit {0})
unfolding create_in_background
background l = create_in_background l.name l.path l.size_gb l.password l.mount_point

drop_launch : ℕ → List Launch → Option (Launch × List Launch)
drop_launch n [] = none
drop_launch zero (l ∷ ls) = some (l, ls)
drop_launch (suc n) (l ∷ ls) = elim (drop_launch n ls) [
  | none ↦ none
  | some (k, ks) ↦ some (k, l ∷ ks)
]

end_launch : Option (Launch × List Launch) → Creations → Creations
unfolding release_pending img_path
end_launch none s = s
end_launch (some (l, ls)) s = record s {
  pending = release_pending l.name (img_path l.path l.name) s.pending;
  running = ls;
}

-- The end of the n-th goroutine, by a return or a panic.
unfoldable pub finish : ℕ → Creations → Creations
unfolding end_launch drop_launch
finish n s = end_launch (drop_launch n s.running) s

-- `vaultEvents` forgets a job when its client has gone or its channel is closed, `cleanupJobs` those
-- that are old.
unfoldable pub forget_job : (id : Text) → Creations → Creations
unfolding erase
forget_job id s = record s { jobs = erase id s.jobs }

unfoldable pub sweep_jobs : (now : ℕ) → Creations → Creations
unfolding cleanup_jobs
sweep_jobs now s = record s { jobs = cleanup_jobs now s.jobs }
