-- ===== src/Vault/Create.antt =====
-- internal/vault/vault.go: the creation pipeline `Create`, with `ensureLoopSupport`,
-- `allocateFile` and `createFile`. The pipeline reports through the channel: `send` may drop a
-- progress event, `send_terminal` waits for room in the channel until shutdown or for a minute. The stages stand with the last one first:
-- each function is the rest of the pipeline from its stage on. A stage that fails reports, releases
-- what the earlier ones acquired, and returns.
pub mod Allocate
pub mod Holds
pub mod Cleanup
use lukscrypt.Prelude.{ℕ, Text, true, false, none, some, [], ◌++◌, text, take, trim_space}
use lukscrypt.Prelude.Decimal.{itoa}
use lukscrypt.Prelude.FilePath.{join}
use lukscrypt.Sys.{
  Prog, give, ask, ◌>>=◌, ◌>>◌, ok, err, by_context, unread, exec, stat, mkdir_all, remove, chmod,
  send, send_terminal, insert_vault, ProgressEvent,
}
use lukscrypt.Sys.Argv.{luks_format, luks_open, luks_close, mkfs_ext4, mount, umount}
use lukscrypt.Vault.Mounts.{mapper_path}
use lukscrypt.Vault.Disk.{check_disk_space}
use Allocate.{progress, ensure_loop_support, allocate_file}

abbrev pub loop_control_path : Text
loop_control_path = text "/dev/loop-control"

-- The event of `fail(context, err)`.
abbrev pub failure : Text → Text → ProgressEvent
failure context error = record {
  step = [];
  message = [];
  percent = 0;
  error = context ++ (text ": " ++ error);
  done = false;
  vault_id = 0;
}

-- The context of a failed subprocess: its name and what it printed.
abbrev pub printed : Text → Text → Text
printed name out = name ++ (text " (" ++ (trim_space out ++ text ")"))

unfoldable pub img_path : Text → Text → Text
img_path path name = join path (name ++ text ".img")

module _ (name path : Text) (size_gb : ℕ) (password mount_point : Text) where
  finished : ℕ → ProgressEvent
  finished id = record {
    step = text "done";
    message = text "Vault created and mounted successfully!";
    percent = 100;
    error = [];
    done = true;
    vault_id = id;
  }

  -- what the failures after mounting have in common
  undo_mounted : Text → Text → Prog (Unit {0})
  undo_mounted context error = do
    ask (exec unread (umount mount_point) [])
    ask (exec unread (luks_close name) [])
    ask (send_terminal (failure context error))
    ask (remove (img_path path name))
    ask (remove mount_point)
    give tt

  persist : Prog (Unit {0})
  persist = do
    saved ← ask (insert_vault name (img_path path name) size_gb mount_point name)
    elim saved [
      | err e ↦ undo_mounted (text "save vault to database") e
      | ok v ↦ ask (send_terminal (finished v.id)) >> give tt
    ]

  permit : Prog (Unit {0})
  permit = do
    e ← ask (chmod mount_point 0o777)
    elim e [ none ↦ persist | some e ↦ undo_mounted (text "set mount point permissions") e ]

  mount_new : Prog (Unit {0})
  mount_new = do
    r ← ask (exec by_context (mount (mapper_path name) mount_point) [])
    elim r.failed [
      | none ↦ permit
      | some e ↦ do
        ask (exec unread (luks_close name) [])
        ask (send_terminal (failure (printed (text "mount") r.out) e))
        ask (remove (img_path path name))
        ask (remove mount_point)
        give tt
    ]

  -- what the failures on the open device have in common
  undo_opened : Text → Text → Prog (Unit {0})
  undo_opened context error = do
    ask (exec unread (luks_close name) [])
    ask (send_terminal (failure context error))
    ask (remove (img_path path name))
    give tt

  make_dir : Prog (Unit {0})
  make_dir = do
    ask (send (progress (text "mounting") (text "Mounting filesystem...") 95))
    e ← ask (mkdir_all mount_point 0o750)
    elim e [ none ↦ mount_new | some e ↦ undo_opened (text "create mount point") e ]

  -- ext4 labels are cut at 16 bytes
  make_filesystem : Prog (Unit {0})
  make_filesystem = do
    ask (send (progress (text "formatting") (text "Formatting ext4 filesystem...") 85))
    r ← ask (exec by_context (mkfs_ext4 (take 16 name) (mapper_path name)) [])
    elim r.failed [ none ↦ make_dir | some e ↦ undo_opened (printed (text "mkfs.ext4") r.out) e ]

  -- what the failures before the device is open have in common
  pub undo_allocated : Text → Text → Prog (Unit {0})
  undo_allocated context error = do
    ask (send_terminal (failure context error))
    ask (remove (img_path path name))
    give tt

  open_new : Prog (Unit {0})
  open_new = do
    ask (send (progress (text "opening") (text "Opening LUKS device...") 75))
    r ← ask (exec by_context (luks_open none (img_path path name) name) password)
    elim r.failed [
      | none ↦ make_filesystem
      | some e ↦ undo_allocated (printed (text "luksOpen") r.out) e
    ]

  pub encrypt : Prog (Unit {0})
  encrypt = do
    ask (send (progress (text "encrypting") (text "Encrypting vault with LUKS...") 62))
    r ← ask (exec by_context (luks_format (img_path path name)) password)
    elim r.failed [
      | none ↦ open_new
      | some e ↦ undo_allocated (printed (text "luksFormat") r.out) e
    ]

  allocate : Prog (Unit {0})
  allocate = do
    ask (
        send (
          progress (text "creating")
            (text "Allocating " ++ (itoa size_gb ++ text " GB container file...")) 0))
    e ← allocate_file (img_path path name) size_gb
    elim e [ none ↦ encrypt | some e ↦ undo_allocated (text "create container file") e ]

  report : Text → Text → Prog (Unit {0})
  report context error = ask (send_terminal (failure context error)) >> give tt

  -- neither the image nor the device may be there
  look_for_leftovers : Prog (Unit {0})
  look_for_leftovers = do
    image ← ask (stat (img_path path name))
    elim image [
      | ok _ ↦
          report (text "create container file")
            (text "file " ++ (img_path path name ++ text " already exists"))
      | err _ ↦ do
        node ← ask (stat (mapper_path name))
        elim node [
          | ok _ ↦ report (text "open LUKS device") (
              mapper_path name
              ++ text " already exists — close it first or choose a different vault name")
          | err _ ↦ allocate
        ]
    ]

  check_loop : Prog (Unit {0})
  check_loop = do
    e ← ensure_loop_support loop_control_path
    elim e [ none ↦ look_for_leftovers | some e ↦ report (text "loop device support") e ]

  check_space : Prog (Unit {0})
  check_space = do
    e ← check_disk_space path size_gb
    elim e [ none ↦ check_loop | some e ↦ report (text "disk space check") e ]

  unfoldable pub create : Prog (Unit {0})
  unfolding undo_mounted finished persist permit mount_new undo_opened make_dir make_filesystem
      undo_allocated open_new encrypt allocate allocate_file report look_for_leftovers check_loop
      ensure_loop_support check_space check_disk_space
  create = do
    e ← ask (mkdir_all path 0o750)
    elim e [ none ↦ check_space | some e ↦ report (text "create storage directory") e ]
