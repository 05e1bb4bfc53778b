-- ===== src/Api/Background/Startup.antt =====
-- Which vaults get a window at the start.
use lukscrypt.Prelude.{
  ℕ, Text, Bool, true, false, ◌||◌, List, [], ◌∷◌, ◌≡◌, refl, ◌∙◌, ap, text, if◌then◌else◌,
}
use lukscrypt.Prelude.Int.{ℤ, pos}
use lukscrypt.Sys.{Vault, Call, Answer, Res, ok, err, Prog, give, ask, track, ◌>>=◌}
use lukscrypt.Sys.Ensures.{run, run-bind}
use lukscrypt.Vault.Mounts.{mounted_in, mapper_path, is_mounted, is_unlocked}
use lukscrypt.Api.Background.{track_if_unlocked, track_each, track_listed, start_windows}

-- The ids whose window has been started, the last one first.
abbrev pub next_tracked : (c : Call) → Answer c → List ℤ → List ℤ
next_tracked (Call.track id) r ids = id ∷ ids
next_tracked _ r ids = ids

-- A system in which devices and mounts do not change meanwhile; `os` answers all other calls.
module _ {W : Type 0} (node : Text → Bool) (mounts : Text) (listed : Res (List Vault))
    (os : (c : Call) → W → Answer c × W) where
  abbrev pub steady : (c : Call) → W → Answer c × W
  steady (Call.stat p) w = (if node p then ok 0 else err (text "no such file or directory"), w)
  steady Call.read_mounts w = (mounts, w)
  steady Call.list_vaults w = (listed, w)
  steady c w = os c w

  -- Its device exists, or its mount point is mounted.
  abbrev pub is_open : Vault → Bool
  is_open v = node (mapper_path v.mapper_name) || mounted_in v.mount_point mounts

  abbrev pub windows : List Vault → List ℤ → List ℤ
  windows [] ids = ids
  windows (v ∷ vs) ids = windows vs (if is_open v then pos v.id ∷ ids else ids)

  abbrev pub windows_of : Res (List Vault) → List ℤ
  windows_of (ok vs) = windows vs []
  windows_of (err e) = []

  unfoldable pub tracked : {A : Type 0} → Prog A → W → List ℤ → List ℤ
  tracked m w ids = (run steady next_tracked m w ids).2

  look : Vault → Res ℕ → Prog Bool
  look v (ok _) = give true
  look v (err _) = is_mounted v

  track_if :
      (v : Vault) (b : Bool) (w : W) (ids : List ℤ)
      → tracked (if b then ask (track (pos v.id)) else give tt) w ids
        ≡ (if b then pos v.id ∷ ids else ids)
  unfolding tracked
  track_if v true w ids = refl
  track_if v false w ids = refl

  track_seen :
      (v : Vault) (there : Bool) (w : W) (ids : List ℤ)
      → tracked
          (look v (if there then ok 0 else err (text "no such file or directory")) >>= λ u.
            if u then ask (track (pos v.id)) else give tt)
          w
          ids
        ≡ (if there || mounted_in v.mount_point mounts then pos v.id ∷ ids else ids)
  unfolding tracked look is_mounted
  track_seen v true w ids = refl
  track_seen v false w ids = track_if v (mounted_in v.mount_point mounts) w ids

  track_if_unlocked_lem :
      (v : Vault) (w : W) (ids : List ℤ)
      → tracked (track_if_unlocked v) w ids ≡ (if is_open v then pos v.id ∷ ids else ids)
  unfolding tracked track_if_unlocked is_unlocked look
  track_if_unlocked_lem v w ids = track_seen v (node (mapper_path v.mapper_name)) w ids

  track_each_lem :
      (vs : List Vault) (w : W) (ids : List ℤ) → tracked (track_each vs) w ids ≡ windows vs ids
  unfolding tracked track_each
  track_each_lem [] w ids = refl
  track_each_lem (v ∷ vs) w ids =
      let first = run steady next_tracked (track_if_unlocked v) w ids in
      ap (λ r. r.2) (run-bind steady next_tracked (track_if_unlocked v) (λ _. track_each vs) w ids)
      ∙ track_each_lem vs first.1 first.2
      ∙ ap (windows vs) (track_if_unlocked_lem v w ids)

  track_listed_lem : (o : Res (List Vault)) (w : W) → tracked (track_listed o) w [] ≡ windows_of o
  unfolding tracked track_listed
  track_listed_lem (ok vs) w = track_each_lem vs w []
  track_listed_lem (err e) w = refl

  -- At the start, in a system whose devices and mounts do not change meanwhile, exactly the listed
  -- vaults whose device exists or whose mount point is mounted get a window, once for each, and none
  -- if the listing fails.
  pub start_windows_lem : (w : W) → tracked start_windows w [] ≡ windows_of listed
  unfolding tracked start_windows
  start_windows_lem w = track_listed_lem listed w
