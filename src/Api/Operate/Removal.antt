-- ===== src/Api/Operate/Removal.antt =====
-- The order of a deletion.
use lukscrypt.Prelude.{Text, Bool, true, false, none, ◌≡◌, ◌||◌, not}
use lukscrypt.Sys.{Vault, Call, Answer, ok, err}
use lukscrypt.Sys.Ensures.{Ensures}
use lukscrypt.Vault.Mounts.{mounted_in}
use lukscrypt.Api.Reply.{Reply, done, refusal}

-- A monitor: whether the record was deleted and the window ended, what the last looks at the device
-- and at the mounts found, whether files were removed, and whether any was before the record or
-- while the vault was seen in use.
pub record Removal : Type 0 where
  pub record_gone : Bool
  pub window_ended : Bool
  pub node : Bool
  pub mounted : Bool
  pub removed : Bool
  pub early : Bool
  pub in_use : Bool

abbrev pub intact : Removal
intact = record {
  record_gone = false;
  window_ended = false;
  node = false;
  mounted = false;
  removed = false;
  early = false;
  in_use = false;
}

abbrev pub next : Text → (c : Call) → Answer c → Removal → Removal
next mount_point (Call.delete_record id) none d = record d { record_gone = true }
next mount_point (Call.untrack id) r d = record d { window_ended = true }
next mount_point (Call.stat p) (ok n) d = record d { node = true }
next mount_point (Call.stat p) (err e) d = record d { node = false }
next mount_point Call.read_mounts m d = record d { mounted = mounted_in mount_point m }
next mount_point (Call.remove p) r d = record d {
  removed = true;
  early = d.early || not d.record_gone;
  in_use = d.in_use || d.node || d.mounted;
}
next mount_point _ r d = d

abbrev pub IsRemoved : Removal → Reply (Unit {0}) → Type 0
IsRemoved d (done r) =
    (d.record_gone ≡ true) × (d.window_ended ≡ true) × (d.early ≡ false) × (d.in_use ≡ false)
IsRemoved d (refusal status e) =
    (d.record_gone ≡ false) × (d.window_ended ≡ false) × (d.removed ≡ false)

-- What a look at the vault leaves in the monitor.
record Looked (d : Removal) (unlocked : Bool) (d' : Removal) : Type 0 where
  same_record : d'.record_gone ≡ d.record_gone
  same_window : d'.window_ended ≡ d.window_ended
  same_removed : d'.removed ≡ d.removed
  same_early : d'.early ≡ d.early
  same_use : d'.in_use ≡ d.in_use
  seen : unlocked ≡ (d'.node || d'.mounted)

-- The record is gone and the window ended, and no file was removed before or in use.
record Gone (d : Removal) : Type 0 where
  record_gone : d.record_gone ≡ true
  window_ended : d.window_ended ≡ true
  not_early : d.early ≡ false
  not_in_use : d.in_use ≡ false
