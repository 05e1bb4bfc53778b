-- ===== src/Sys/Attempts.antt =====
-- How many commands that try a credential on a keyslot a program runs.
use lukscrypt.Prelude.{ℕ, ◌+◌, ◌-◌, ◌≤◌, Bool, true, false, ◌≡◌, arith, leb, if◌then◌else◌}
use lukscrypt.Sys.{Call, Answer, Prog, give, sys, ◌>>=◌}
use lukscrypt.Sys.Argv.{Command}
use lukscrypt.Sys.Ensures.{Ensures, Ensures-mono}

abbrev pub tries_key : Command → ℕ
tries_key (Command.luks_open k p m) = 1
tries_key (Command.luks_add_key p s) = 1
tries_key (Command.luks_add_key_file k s p q) = 1
tries_key (Command.luks_kill_slot k p s) = 1
tries_key (Command.luks_resize k m) = 1
tries_key _ = 0

abbrev pub tries : Call → ℕ
tries (Call.exec b c s) = tries_key c
tries _ = 0

-- The monitor that counts them.
abbrev pub count : (c : Call) → Answer c → ℕ → ℕ
count c r n = n + tries c

-- At most `n` of them on every branch.
abbrev pub AtMost : {A : Type 0} → ℕ → Prog A → Type 0
AtMost n (give a) = Unit
AtMost n (sys c k) = (leb (tries c) n ≡ true) × ((r : Answer c) → AtMost (n - tries c) (k r))

pub AtMost-mono : {A : Type 0} (a b : ℕ) (m : Prog A) → a ≤ b → AtMost a m → AtMost b m
AtMost-mono a b (give x) l h = tt
AtMost-mono a b (sys c k) l (h, g) =
    (ground arith, λ r. AtMost-mono (a - tries c) (b - tries c) (k r) (omega arith) (g r))

pub AtMost-bind :
    {A B : Type 0} (a b : ℕ) (m : Prog A) (f : A → Prog B)
    → AtMost a m
    → ((x : A) → AtMost b (f x))
    → AtMost (a + b) (m >>= f)
AtMost-bind a b (give x) f h k = AtMost-mono b (a + b) (f x) (omega arith) (k x)
AtMost-bind a b (sys c g) f (h, h') k = (
  ground arith,
  λ r.
      AtMost-mono (a - tries c + b) (a + b - tries c) (g r >>= f) (ground arith)
        (AtMost-bind (a - tries c) b (g r) f (h' r) k),
)

pub AtMost-if :
    {A : Type 0} (n : ℕ) (b : Bool) (m k : Prog A)
    → AtMost n m
    → AtMost n k
    → AtMost n (if b then m else k)
AtMost-if n true m k h h' = h
AtMost-if n false m k h h' = h'

pub AtMost-Ensures :
    {A : Type 0} (n s : ℕ) (m : Prog A) → AtMost n m → Ensures count (λ s' _. s' ≤ s + n) s m
AtMost-Ensures n s (give a) h = omega arith
AtMost-Ensures n s (sys c k) (h, h') = λ r.
    Ensures-mono count (λ s' _. s' ≤ s + tries c + (n - tries c)) (λ s' _. s' ≤ s + n) (k r) _
      (AtMost-Ensures (n - tries c) (s + tries c) (k r) (h' r)) λ s' a l. ground arith
