-- ===== src/Db/Open/Kept.antt =====
-- What opening a database file does to its tables.
use lukscrypt.Prelude.{ℕ, Text, Option, none, some, List, [], ◌≡◌, refl}
use lukscrypt.Sys.{Res, ok, err}
use lukscrypt.Db.Open.{
  File, Statement, journal_mode, synchronous, create_vaults, create_tokens, if_not_exists, effect,
  unless_failed, execute, migrate, opened, open_db,
}

-- Rows are neither lost nor made, and the ids go on.
abbrev pub contents : {A : Type 0} → Option (List A × ℕ) → List A × ℕ
contents none = ([], 1)
contents (some t) = t

abbrev pub IsSame : File → File → Type 0
IsSame f g = (contents g.vaults ≡ contents f.vaults) × (contents g.tokens ≡ contents f.tokens)

-- Both tables are there.
abbrev pub ready : File → File
ready f = record { vaults = some (contents f.vaults); tokens = some (contents f.tokens) }

abbrev pub IsOpened : File → Res (Unit {0}) × File → Type 0
IsOpened f (ok u, g) = g ≡ ready f
IsOpened f (err e, g) = IsSame f g

if_not_exists_lem : {A : Type 0} (t : Option (List A × ℕ)) → if_not_exists t ≡ some (contents t)
unfolding if_not_exists
if_not_exists_lem none = refl
if_not_exists_lem (some t) = refl

created :
    (f : File)
    → ◌≡◌ {A = File}
        (record { vaults = if_not_exists f.vaults; tokens = if_not_exists f.tokens })
        (ready f)
created f = rw (if_not_exists_lem f.vaults, if_not_exists_lem f.tokens) refl

vaults_created : (f : File) → IsSame f (record f { vaults = if_not_exists f.vaults })
vaults_created f = rw (if_not_exists_lem f.vaults) (refl, refl)

-- By the answers to the four statements.
answered :
    (a b c d : Option Text) (fails : Statement → Option Text) (f : File)
    → let g = effect create_vaults f in
      IsOpened f (
        opened fails (
          unless_failed a journal_mode
            (unless_failed b synchronous
              (unless_failed c create_vaults
                (unless_failed d create_tokens (none, effect create_tokens g) g)
                f)
              f)
            f))
unfolding opened unless_failed effect
answered (some e) b c d fails f = (refl, refl)
answered none (some e) c d fails f = (refl, refl)
answered none none (some e) d fails f = (refl, refl)
answered none none none (some e) fails f = vaults_created f
answered none none none none fails f = created f

-- Opening a file neither loses nor makes a row of either table, nor does it give an id again,
-- whichever of its statements fails; when it succeeds both tables are there.
pub open_db-IsOpened :
    (fails : Statement → Option Text) (connect : Option Text) (f : File)
    → IsOpened f (open_db fails connect f)
unfolding open_db migrate execute
open_db-IsOpened fails (some e) f = (refl, refl)
open_db-IsOpened fails none f =
    answered (fails journal_mode) (fails synchronous) (fails create_vaults) (fails create_tokens)
      fails f
