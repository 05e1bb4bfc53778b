-- ===== src/Vault/Resize/Append.antt =====
-- The region that the fallback `append_file` hands to dd.
use lukscrypt.Prelude.{
  ℕ, ◌⊎◌, inl, inr, ◌+◌, ◌*◌, ◌%◌, ◌^◌, Text, Bool, true, false, ◌≡◌, refl, arith,
}
use lukscrypt.Sys.{Call, Answer, ok, err}
use lukscrypt.Sys.Argv.{Command}
use lukscrypt.Sys.Ensures.{Ensures, Exit-cases}
use lukscrypt.Vault.Resize.{append_file}

-- A monitor: the file's size as read, and the bytes from `start` to `stop` that dd is told to write.
pub record Region : Type 0 where
  pub size : ℕ
  pub start : ℕ
  pub stop : ℕ
  pub written : Bool

abbrev pub no_region : Region
no_region = record { size = 0; start = 0; stop = 0; written = false }

abbrev after_exec : Command → Region → Region
after_exec (Command.dd_append p seek count) r = record r {
  start = seek * 2 ^ 20;
  stop = (seek + count) * 2 ^ 20;
  written = true;
}
after_exec _ r = r

abbrev pub next : (c : Call) → Answer c → Region → Region
next (Call.exec b c s) e r = after_exec c r
next (Call.stat p) (ok size) r = record r { size = size }
next _ e r = r

abbrev pub IsAppended : ℕ → Region → Type 0
IsAppended delta_gb r =
    (r.start + r.size % 2 ^ 20 ≡ r.size) × (r.stop ≡ r.start + delta_gb * 2 ^ 30)

-- Whatever the answers, either dd is not run, or it writes whole GB from the last whole MiB of the file on: the region begins
-- `size % 2^20` bytes before the file's end. So it only appends to a file of whole MiB, and of any
-- other it overwrites the last bytes with zeros.
pub append_file-IsAppended :
    (path : Text) (delta_gb : ℕ)
    → Ensures next
        (λ r _. (r.written ≡ false) ⊎ IsAppended delta_gb r)
        no_region
        (append_file path delta_gb)
unfolding append_file
append_file-IsAppended path delta_gb = elim [
  | err e ↦ inl refl
  | ok size ↦
      Exit-cases _ (λ out. inr (omega arith, omega arith)) λ out e. inr (omega arith, omega arith)
]
