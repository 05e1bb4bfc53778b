-- ===== src/Api/BruteForce/Tests.antt =====
-- The operations of the API at concrete requests, against a system in which every command succeeds.
use lukscrypt.Prelude.{
  true, ◌+◌, ◌-◌, ◌*◌, ◌/◌, ◌≤◌, Text, Option, none, some, List, [], ◌∷◌, ◌≡◌, refl, arith, text,
  text_beq, has_prefix, contains,
}
use lukscrypt.Prelude.Int.{pos}
use lukscrypt.Sys.{Vault, Call, Answer, Res, ok, err}
use lukscrypt.Sys.Ensures.{Ensures, run}
use lukscrypt.Sys.Attempts.{count}
use lukscrypt.Vault.Header.{Luks2Header, dump_details}
use lukscrypt.Vault.Resize.Steps.{untouched}
use lukscrypt.Api.Reply.{passphrase}
use lukscrypt.Api.Limiter.{second}
use lukscrypt.Api.Limiter.Tests.{buckets, buckets-IsTokenBucket}
use lukscrypt.Api.Operate.{UnlockRequest}
use lukscrypt.Api.Operate.Windows.{watch}
use lukscrypt.Api.Operate.Removal
use lukscrypt.Api.Grow.{Growth, grow_locked}
use lukscrypt.Api.Grow.Recorded
use lukscrypt.Api.Grow.Recorded.{unrecorded, IsAccounted, grow_locked-IsAccounted}
use lukscrypt.Api.Keyslots.{remove_locked}
use lukscrypt.Api.Keyslots.Kill.{IsSafeRemoval, remove_locked-IsSafeRemoval}
use lukscrypt.Db.{Db, delete_vault}
use lukscrypt.Vault.Mounts.{mounted_in, proc_mounts_escape}
use lukscrypt.Api.Stored.{answer, deletes, grows, asked, IsAnswered}
use lukscrypt.Api.Stored.Effects.{asked-IsAnswered}
use lukscrypt.Api.Stored.Quiet.{idle}
use lukscrypt.Api.BruteForce.{Traffic, request, sweep, unlock, requests_of}
use lukscrypt.Api.BruteForce.Bound.{requests_of-bound}

abbrev photos : Vault
photos = record {
  id = 1;
  name = text "photos";
  path = text "/vaults/photos.img";
  size_gb = 10;
  mount_point = text "/mnt/photos";
  mapper_name = text "photos";
  created_at = [];
}

abbrev to_twenty : Growth
to_twenty = record { size_gb = 20; key = text "correct horse" }

grow_locked-IsAccounted_example :
    Ensures Recorded.next
      (IsAccounted (pos 1) 20)
      (untouched, unrecorded)
      (grow_locked (pos 1) to_twenty photos)
grow_locked-IsAccounted_example = grow_locked-IsAccounted (pos 1) to_twenty photos

abbrev no_json : Text → Res Luks2Header
no_json raw = err (text "no JSON")

abbrev luks1 : Text
luks1 = text "Version: 1\nKey Slot 0: ENABLED\nKey Slot 1: ENABLED\n"

-- Every command succeeds, and prints a LUKS1 header.
abbrev pub willing : (c : Call) → Unit {0} → Answer c × Unit {0}
willing (Call.exec b c s) w = (record { out = luks1; failed = none }, w)
willing (Call.watch c) w = (err [], w)
willing (Call.stat p) w = (err (text "not there"), w)
willing Call.read_mounts w = ([], w)
willing (Call.mkdir_all p n) w = (none, w)
willing (Call.remove p) w = (none, w)
willing (Call.chmod p n) w = (none, w)
willing (Call.statfs p) w = (err [], w)
willing Call.create_temp w = (ok [], w)
willing (Call.write_temp p b) w = (none, w)
willing (Call.close_temp p) w = (none, w)
willing (Call.write_file p b n) w = (none, w)
willing (Call.send e) w = (tt, w)
willing (Call.send_terminal e) w = (true, w)
willing (Call.insert_vault n p g m d) w = (ok photos, w)
willing Call.list_vaults w = (ok (photos ∷ []), w)
willing (Call.find_vault id) w = (ok (some photos), w)
willing (Call.find_vault_named n) w = (ok (some photos), w)
willing (Call.delete_record id) w = (none, w)
willing (Call.update_size id g) w = (none, w)
willing (Call.track id) w = (tt, w)
willing (Call.untrack id) w = (tt, w)

remove_locked-IsSafeRemoval_example :
    IsSafeRemoval 1
      (run willing count (dump_details no_json photos) tt 0).0
      (run willing count
        (remove_locked no_json (passphrase (text "correct horse")) 1 photos)
        tt
        0).0
      (run willing count
        (remove_locked no_json (passphrase (text "correct horse")) 1 photos)
        tt
        0).2
remove_locked-IsSafeRemoval_example =
    remove_locked-IsSafeRemoval willing no_json (passphrase (text "correct horse")) 1 photos tt

removal_tests :
    (run willing count (remove_locked no_json (passphrase (text "correct horse")) 1 photos) tt 0).2
    ≡ 1
unfolding remove_locked text_beq text has_prefix
removal_tests = refl

abbrev as_is : Text → Option Text
as_is b = some b

abbrev guess : UnlockRequest
guess = record { password = text "correct horse"; key_file = [] }

abbrev traffic : List Traffic
traffic =
    request 5 (text "1.2.3.4") (unlock (text "1") (some guess))
    ∷ request 6 (text "5.6.7.8") (unlock (text "1") (some guess))
    ∷ sweep 7
    ∷ []

requests_of-bound_example :
    Ensures count
      (λ n _. n ≤ 5 + (60 * second - 0) / (30 * second))
      0
      (requests_of as_is no_json 100 buckets (text "1.2.3.4") traffic [])
requests_of-bound_example =
    requests_of-bound as_is no_json 100 buckets buckets-IsTokenBucket (text "1.2.3.4") 0
      (60 * second) traffic (omega arith, (omega arith, (omega arith, omega arith)))

abbrev one_vault : Db
one_vault = record { vaults = photos ∷ []; next_vault = 2; tokens = []; next_token = 1 }

deletion_tests :
    (run
      (answer (text "t0") (λ vs. vs) willing)
      idle
      (asked deletes 1 photos)
      (tt, one_vault)
      tt).1.1.vaults
    ≡ []
unfolding asked delete_vault mounted_in contains proc_mounts_escape has_prefix text
deletion_tests = refl

asked-IsAnswered_example :
    let (is_confirmed, (_, e), _) =
      run
        (answer (text "t0") (λ vs. vs) willing)
        idle
        (asked (grows to_twenty) 1 photos)
        (tt, one_vault)
        tt in
    IsAnswered is_confirmed (grows to_twenty) 1 one_vault e
asked-IsAnswered_example =
    asked-IsAnswered (text "t0") (λ vs. vs) willing (grows to_twenty) 1 photos tt one_vault
