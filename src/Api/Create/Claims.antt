-- ===== src/Api/Create/Claims.antt =====
-- Creations and imports beside the creations that run.
use lukscrypt.Prelude.{
  ℕ, Text, false, Option, some, List, ◌≡◌, refl, inl, inr, ◌⊎◌, Option-cases, text_beq, any,
}
use lukscrypt.Sys.{Res, give}
use lukscrypt.Vault.Header.{Luks2Header}
use lukscrypt.Api.Reply.{Reply, done, refusal}
use lukscrypt.Api.Reserve.{NewVault, Dirs, in_flight, import_locked}
use lukscrypt.Api.Reserve.Fresh.{import_locked-taken}
use lukscrypt.Api.Create.{Launch, no_creations, image_of, create_vault}
use lukscrypt.Api.Create.Exclusive.{Event, run, image, unreserved, create_vault-exclusive}

-- No running creation has the name or the image file.
abbrev pub IsFree : (name path : Text) → List Launch → Type 0
IsFree name path ls =
    (any (λ l. text_beq l.name name) ls ≡ false) × (any (λ l. text_beq (image l) path) ls ≡ false)

answered :
    (d : Dirs) (es : List Event) (now : ℕ) (random_hex : Option Text) (r : NewVault)
    (reply : Reply Text)
    → (create_vault d now random_hex (some r) (run d es no_creations)).0 ≡ reply
    → ((status : ℕ) × (e : Text) × (reply ≡ refusal status e))
      ⊎ IsFree r.name (image_of r) (run d es no_creations).running
answered d es now random_hex r (done id) h = inr (create_vault-exclusive d es now random_hex r id h)
answered d es now random_hex r (refusal status e) h = inl (status, e, refl)

-- Whatever requests and endings came before: a request for a creation is refused, or no running
-- creation has its name or its image file; and an import is refused with 409 before anything is
-- asked of the system, or no running creation has its name or its image file.
pub claims-exclusive :
    (d : Dirs) (es : List Event) (now : ℕ) (random_hex : Option Text) (r : NewVault)
    (unmarshal : Text → Res Luks2Header) (name path mount_dir : Text)
    → let s = run d es no_creations in
      let reply = (create_vault d now random_hex (some r) s).0 in
      (((status : ℕ) × (e : Text) × (reply ≡ refusal status e))
        ⊎ IsFree r.name (image_of r) s.running)
      × (((e : Text) × (import_locked unmarshal name path mount_dir s.pending
              ≡ give (refusal 409 e)))
          ⊎ IsFree name path s.running)
claims-exclusive d es now random_hex r unmarshal name path mount_dir = (
  answered d es now random_hex r _ refl,
  elim (Option-cases (in_flight name path (run d es no_creations).pending)) [
    | inl free ↦ inr (unreserved d es name path free)
    | inr (e, taken) ↦ inl (
      e,
      import_locked-taken unmarshal name path mount_dir (run d es no_creations).pending e taken,
    )
  ],
)
