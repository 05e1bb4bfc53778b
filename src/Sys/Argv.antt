-- ===== src/Sys/Argv.antt =====
-- The subprocesses that the program starts, and the argument vector of each.
use lukscrypt.Prelude.{ℕ, Text, Option, none, some, List, [], ◌∷◌, ◌++◌, text}
use lukscrypt.Prelude.Int.{ℤ}
use lukscrypt.Prelude.Decimal.{itoa, itoa_ℤ}

pub data Command : Type 0 where
  luks_format : (img : Text) → Command
  -- the size of a keyfile that is read from stdin, if the credential is one
  luks_open : (keyfile : Option ℕ) → (img mapper : Text) → Command
  luks_close : (mapper : Text) → Command
  luks_add_key : (img : Text) → (slot : Option ℕ) → Command
  luks_add_key_file : (keyfile : ℕ) → (slot : Option ℕ) → (img key_path : Text) → Command
  luks_kill_slot : (keyfile : Option ℕ) → (img : Text) → (slot : ℕ) → Command
  luks_dump : (img : Text) → Command
  luks_dump_json : (img : Text) → Command
  luks_resize : (keyfile : ℕ) → (mapper : Text) → Command
  resize2fs : (device : Text) → Command
  mkfs_ext4 : (label device : Text) → Command
  mount : (device dir : Text) → Command
  umount : (dir : Text) → Command
  fallocate : (bytes : ℤ) → (img : Text) → Command
  dd_create : (img : Text) → (count_mb : ℕ) → Command
  dd_append : (img : Text) → (seek_mb count_mb : ℕ) → Command
  modprobe_loop : Command

key_args : Option ℕ → List Text
key_args none = []
key_args (some n) = text "--key-file=-" ∷ (text "--keyfile-size=" ++ itoa n) ∷ []

slot_args : Option ℕ → List Text
slot_args none = []
slot_args (some n) = text "--key-slot" ∷ itoa n ∷ []

unfoldable pub argv : Command → List Text
unfolding key_args slot_args
argv (luks_format img) = text "cryptsetup" ∷ text "luksFormat" ∷ text "--batch-mode" ∷ img ∷ []
argv (luks_open k img mapper) =
    (text "cryptsetup" ∷ text "luksOpen" ∷ []) ++ (key_args k ++ (img ∷ mapper ∷ []))
argv (luks_close mapper) = text "cryptsetup" ∷ text "luksClose" ∷ mapper ∷ []
argv (luks_add_key img slot) =
    (text "cryptsetup" ∷ text "luksAddKey" ∷ text "--batch-mode" ∷ img ∷ []) ++ slot_args slot
argv (luks_add_key_file k slot img key_path) =
    (text "cryptsetup" ∷ text "luksAddKey" ∷ text "--batch-mode" ∷ [])
    ++ (key_args (some k) ++ (slot_args slot ++ (img ∷ key_path ∷ [])))
argv (luks_kill_slot none img slot) = text "cryptsetup" ∷ text "luksKillSlot" ∷ img ∷ itoa slot ∷ []
argv (luks_kill_slot (some k) img slot) =
    (text "cryptsetup" ∷ text "luksKillSlot" ∷ []) ++ (key_args (some k) ++ (img ∷ itoa slot ∷ []))
argv (luks_dump img) = text "cryptsetup" ∷ text "luksDump" ∷ img ∷ []
argv (luks_dump_json img) =
    text "cryptsetup" ∷ text "luksDump" ∷ text "--dump-json-metadata" ∷ img ∷ []
argv (luks_resize k mapper) =
    (text "cryptsetup" ∷ text "resize" ∷ []) ++ (key_args (some k) ++ (mapper ∷ []))
argv (resize2fs device) = text "resize2fs" ∷ device ∷ []
argv (mkfs_ext4 label device) = text "mkfs.ext4" ∷ text "-L" ∷ label ∷ device ∷ []
argv (mount device dir) = text "mount" ∷ device ∷ dir ∷ []
argv (umount dir) = text "umount" ∷ dir ∷ []
argv (fallocate bytes img) = text "fallocate" ∷ text "-l" ∷ itoa_ℤ bytes ∷ img ∷ []
argv (dd_create img count_mb) =
    text "dd"
    ∷ text "if=/dev/zero"
    ∷ (text "of=" ++ img)
    ∷ text "bs=1M"
    ∷ (text "count=" ++ itoa count_mb)
    ∷ []
argv (dd_append img seek_mb count_mb) =
    text "dd"
    ∷ text "if=/dev/zero"
    ∷ (text "of=" ++ img)
    ∷ text "bs=1M"
    ∷ (text "seek=" ++ itoa seek_mb)
    ∷ (text "count=" ++ itoa count_mb)
    ∷ text "conv=notrunc"
    ∷ []
argv modprobe_loop = text "modprobe" ∷ text "loop" ∷ []
