-- ===== src/Api/Create/Account.antt =====
-- What a request for a creation leaves behind.
use lukscrypt.Prelude.{
  ℕ, Text, text_eq, false, Option, none, some, List, [], ◌∷◌, ◌≡◌, refl, ap, sym, subst,
  text_beq_refl, arith, ◌++◌, text, ◌∙◌,
}
use lukscrypt.Prelude.Dict.{insert}
use lukscrypt.Prelude.Int.{ℤ, pos, negsuc}
use lukscrypt.Prelude.FilePath.{join}
use lukscrypt.Vault.Create.{img_path}
use lukscrypt.Api.Reserve.Accepted.{
  IsPositive, IsWellFormed, IsUnreserved, check_new-IsWellFormed, in_flight-IsUnreserved,
}
use lukscrypt.Api.Reply.{Reply, done, refusal}
use lukscrypt.Api.Reserve.{
  Pending, NewVault, Dirs, has_key, delete_key, check_new, in_flight, reserve, answer,
  release_pending,
}
use lukscrypt.Api.Create.{
  Creations, Launch, gigabytes, launched, image_of, begin, with_reservation, when_accepted,
  create_vault,
}

delete_key-absent : (k : Text) (ks : List Text) → has_key k ks ≡ false → delete_key k ks ≡ ks
unfolding has_key delete_key
delete_key-absent k [] h = refl
delete_key-absent k (j ∷ ks) h = ground (arith, delete_key-absent k ks)

delete_key-first : (k : Text) (ks : List Text) → has_key k ks ≡ false → delete_key k (k ∷ ks) ≡ ks
unfolding delete_key
delete_key-first k ks h = ground (arith, text_beq_refl k, delete_key-absent k ks h)

-- A reservation that is given back at once leaves the maps as they were.
release_pending-reserve :
    (name path : Text) (p : Pending)
    → in_flight name path p ≡ none
    → release_pending name path (reserve name path p).1 ≡ p
unfolding release_pending reserve in_flight
release_pending-reserve name path p h =
    ground (arith, delete_key-first name p.names, delete_key-first path p.paths)

-- The first reason there is: a failed check, a reservation, or that no id could be made.
abbrev pub IsRefused : (random_hex check conflict : Option Text) → ℕ → Text → Type 0
IsRefused random_hex (some m) conflict status e = (status ≡ 400) × (e ≡ m)
IsRefused random_hex none (some m) status e = (status ≡ 409) × (e ≡ m)
IsRefused none none none status e = status ≡ 500
IsRefused (some id) none none status e = ⊥

-- The goroutine has the request's data, its size as a natural number, and its mount point is the
-- name inside the mount directory.
abbrev pub IsLaunchOf : NewVault → Launch → Type 0
IsLaunchOf r l =
    (l.name ≡ r.name)
    × (l.path ≡ r.path)
    × (r.size_gb ≡ pos l.size_gb)
    × (l.password ≡ r.password)
    × (l.mount_point ≡ r.mount_dir ++ b'/' ∷ r.name)

-- The image is the name with ".img" in the storage directory.
abbrev pub image_path : NewVault → Text
image_path r = join r.path (r.name ++ text ".img")

-- The state after a reply, from the state before.
abbrev pub IsAccounted :
    Dirs → ℕ → Option Text → Option NewVault → Creations → Reply Text × Creations → Type 0
IsAccounted d now random_hex none s (done id, s') = ⊥
IsAccounted d now random_hex (some r) s (done id, s') =
    (random_hex ≡ some id)
    × IsWellFormed d r
    × IsUnreserved r.name (image_path r) s.pending
    × ((l : Launch) × IsLaunchOf r l
        × (s' ≡ record {
          pending = record {
            names = r.name ∷ s.pending.names;
            paths = image_path r ∷ s.pending.paths;
          };
          jobs = insert id now s.jobs;
          running = l ∷ s.running;
        }))
IsAccounted d now random_hex none s (refusal status e, s') = (status ≡ 400) × (s' ≡ s)
IsAccounted d now random_hex (some r) s (refusal status e, s') =
    IsRefused random_hex (check_new d r) (in_flight r.name (image_of r) s.pending) status e
    × (s' ≡ s)

reserve-answer :
    (name path : Text) (p : Pending) (o : Option Text)
    → in_flight name path p ≡ o
    → reserve name path p ≡ answer name path p o
unfolding reserve
reserve-answer name path p o h = ap (answer name path p) h

launched-IsLaunchOf : (r : NewVault) → IsPositive r.size_gb → IsLaunchOf r (launched r)
unfolding launched gigabytes
launched-IsLaunchOf r h = (refl, refl, of_positive r.size_gb h, refl, refl)
  where
    of_positive : (z : ℤ) → IsPositive z → z ≡ pos (gigabytes z)
    of_positive (pos n) k = refl
    of_positive (negsuc n) k = absurd k

module _ (d : Dirs) (now : ℕ) (r : NewVault) (s : Creations) where
  begin-IsAccounted :
      (random_hex : Option Text)
      → check_new d r ≡ none
      → in_flight r.name (image_of r) s.pending ≡ none
      → IsAccounted d now random_hex (some r) s (
          begin now random_hex r (record s {
            pending = record {
              names = r.name ∷ s.pending.names;
              paths = image_of r ∷ s.pending.paths;
            };
          }))
  unfolding begin image_of img_path
  begin-IsAccounted none c free = (
    rw (c, free) refl,
    ap (λ p. record s { pending = p })
        (ap (release_pending r.name (image_of r))
            (sym (ap (λ x. x.1) (reserve-answer r.name (image_of r) s.pending none free)))
          ∙ release_pending-reserve r.name (image_of r) s.pending free),
  )
  begin-IsAccounted (some id) c free =
      let fine = (check_new-IsWellFormed d r).0 c in
      (
        refl,
        fine,
        in_flight-IsUnreserved r.name (image_of r) s.pending free,
        (launched r, launched-IsLaunchOf r fine.4, refl),
      )

  reserved :
      (random_hex o : Option Text)
      → check_new d r ≡ none
      → in_flight r.name (image_of r) s.pending ≡ o
      → IsAccounted d now random_hex
          (some r)
          s
          (with_reservation now random_hex r (reserve r.name (image_of r) s.pending) s)
  unfolding with_reservation
  reserved random_hex (some e) c h =
      subst (λ x. IsAccounted d now random_hex (some r) s (with_reservation now random_hex r x s))
        (sym (reserve-answer r.name (image_of r) s.pending (some e) h))
        (rw (c, h) (refl, refl), refl)
  reserved random_hex none c h =
      subst (λ x. IsAccounted d now random_hex (some r) s (with_reservation now random_hex r x s))
        (sym (reserve-answer r.name (image_of r) s.pending none h))
        (begin-IsAccounted random_hex c h)

  checked :
      (random_hex o : Option Text)
      → check_new d r ≡ o
      → IsAccounted d now random_hex (some r) s (when_accepted now random_hex r o s)
  unfolding when_accepted
  checked random_hex (some e) c = (rw c (refl, refl), refl)
  checked random_hex none c = reserved random_hex (in_flight r.name (image_of r) s.pending) c refl

-- The reply to a request for a creation is a job's id only if the name has from 1 to 64 letters,
-- digits or hyphens, both directories are configured ones, the password has eight bytes, the size is
-- positive and within the maximum, neither the name nor the image is reserved, and the id could be
-- made; the name and the image are then added to the reservations, the job is listed under that id,
-- and a goroutine runs with the request's data, to mount at the name inside the mount directory. Any
-- other reply gives the first reason there is, 400 for a body or a check that fails, 409 for a
-- reservation, 500 for a missing id, and leaves reservations, jobs and goroutines as they were.
pub create_vault-IsAccounted :
    (d : Dirs) (now : ℕ) (random_hex : Option Text) (body : Option NewVault) (s : Creations)
    → IsAccounted d now random_hex body s (create_vault d now random_hex body s)
unfolding create_vault
create_vault-IsAccounted d now random_hex none s = (refl, refl)
create_vault-IsAccounted d now random_hex (some r) s =
    checked d now r s random_hex (check_new d r) refl
