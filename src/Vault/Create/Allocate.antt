-- ===== src/Vault/Create/Allocate.antt =====
-- `ensureLoopSupport`, `allocateFile` and `createFile`. The select loop of `createFile` reads what
-- the ticker saw while dd ran; a size that cannot be read skips the round. The percentage, a float
-- in Go, is the quotient rounded down, of a byte count that fits 63 bits.
use lukscrypt.Prelude.{
  ℕ, ◌*◌, ◌/◌, ◌^◌, Text, false, Option, none, some, List, [], ◌∷◌, ◌++◌, text, ltb, if◌then◌else◌,
  ◌≤◌, arith,
}
use lukscrypt.Prelude.Decimal.{itoa}
use lukscrypt.Sys.{
  ProgressEvent, Prog, give, ask, ◌>>=◌, ◌>>◌, ok, err, Wait, exited, cancelled, by_context, stat,
  exec, watch, send, remove,
}
use lukscrypt.Sys.Argv.{fallocate, dd_create, modprobe_loop}
use lukscrypt.Vault.Disk.{image_bytes}

abbrev pub progress : Text → Text → ℕ → ProgressEvent
progress step message percent = record {
  step = step;
  message = message;
  percent = percent;
  error = [];
  done = false;
  vault_id = 0;
}

unfoldable pub ensure_loop_support : Text → Prog (Option Text)
ensure_loop_support control = do
  node ← ask (stat control)
  elim node [
    | ok _ ↦ give none
    | err _ ↦ do
      ask (exec by_context modprobe_loop [])
      again ← ask (stat control)
      elim again [
        | ok _ ↦ give none
        | err _ ↦ give (
            some (
              text "no loop device support ("
              ++ (control
                  ++ text
                      " missing): file-backed LUKS needs loop devices — on the NAS host run `modprobe loop` once (persist with `echo loop > /etc/modules-load.d/loop.conf`), then retry vault creation")))
      ]
  ]

-- At most 60: the file's share of the whole progress.
unfoldable pub file_percent : ℕ → ℕ → ℕ
file_percent size size_gb =
    let percent = size * 60 / (size_gb * 2 ^ 30) in if ltb 60 percent then 60 else percent

-- The ticker's rounds, oldest first.
unfoldable pub report_sizes : ℕ → List (Option ℕ) → Prog (Unit {0})
unfolding file_percent
report_sizes size_gb [] = give tt
report_sizes size_gb (none ∷ more) = report_sizes size_gb more
report_sizes size_gb (some size ∷ more) = do
  let percent = file_percent size size_gb
  ask (
      send (
        progress (text "creating")
          (text "Creating container file... " ++ (itoa percent ++ text "%")) percent))
  report_sizes size_gb more

abbrev pub wait_error : Wait → Option Text
wait_error (exited e) = e
wait_error (cancelled e) = some e

unfoldable pub create_file : Text → ℕ → Prog (Option Text)
unfolding report_sizes
create_file img size_gb = do
  started ← ask (watch (dd_create img (size_gb * 1024)))
  elim started [
    | err e ↦ give (some e)
    | ok (sizes, wait) ↦ do report_sizes size_gb sizes; give (wait_error wait)
  ]

unfoldable pub allocate_file : Text → ℕ → Prog (Option Text)
unfolding create_file
allocate_file img size_gb = do
  r ← ask (exec by_context (fallocate (image_bytes size_gb) img) [])
  elim r.failed [
    | none ↦ do
      ask (send (progress (text "creating") (text "Container file allocated.") 60))
      give none
    | some _ ↦ do ask (remove img); create_file img size_gb
  ]

pub file_percent-le-60 : (size size_gb : ℕ) → file_percent size size_gb ≤ 60
unfolding file_percent
file_percent-le-60 size size_gb = ground arith
