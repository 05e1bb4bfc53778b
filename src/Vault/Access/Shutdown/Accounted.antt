-- ===== src/Vault/Access/Shutdown/Accounted.antt =====
-- Every vault is locked at shutdown, or reported.
use lukscrypt.Prelude.{
  Text, true, false, Option, List, [], ◌∷◌, ◌++◌, ◌≡◌, sym, subst, inl, inr, arith, ◌||◌, Any,
  Bool-cases,
}
use lukscrypt.Sys.{Vault, Call, Answer, Prog, give, sys, ◌>>=◌, Bound, ok, err}
use lukscrypt.Sys.Argv.{Command}
use lukscrypt.Sys.Ensures.{Ensures, Ensures-bind}
use lukscrypt.Sys.Quiet.{Ensures-trivial}
use lukscrypt.Vault.Access.{VaultLockError, lock_if_unlocked, lock_each}
use lukscrypt.Vault.Access.Shutdown.{
  Seen, unknown, after_exec, next, is_reported, IsAccounted, lock_if_unlocked_lem,
}
use lukscrypt.Vault.Access.Shutdown.Closing.{opens, IsClosing, lock_each-IsClosing}

module _ (v : Vault) where
  abbrev StaysDown : {A : Type 0} → Prog A → Type 0
  StaysDown m = (d : Seen) → d.down ≡ true → Ensures (next v) (λ d' _. d'.down ≡ true) d m

  exec_down :
      (b : Bound) (c : Command) (s : Text) (e : Option Text) (d : Seen)
      → opens (Call.exec b c s) ≡ false
      → d.down ≡ true
      → (after_exec v c e d).down ≡ true
  exec_down b (Command.luks_close name) s e d o h = ground (arith, h)
  exec_down b (Command.luks_open k p name) s e d o h = cc
  exec_down b (Command.mount dev dir) s e d o h = cc
  exec_down b _ s e d o h = h

  next_down :
      (c : Call) (r : Answer c) (d : Seen)
      → opens c ≡ false
      → d.down ≡ true
      → (next v c r d).down ≡ true
  next_down (Call.exec b c s) r d e h = exec_down b c s r.failed d e h
  next_down (Call.stat p) (ok n) d e h = ground (arith, h)
  next_down (Call.stat p) (err x) d e h = ground (arith, h)
  next_down Call.read_mounts m d e h = ground (arith, h)
  next_down _ r d e h = h

  IsClosing-StaysDown : {A : Type 0} (m : Prog A) → IsClosing m → StaysDown m
  IsClosing-StaysDown (give a) h d e = e
  IsClosing-StaysDown (sys c k) (q, h) d e =
      λ r. IsClosing-StaysDown (k r) (h r) (next v c r d) (next_down c r d q e)

  reported_append :
      (fs gs : List VaultLockError)
      → ((is_reported v fs || is_reported v gs) ≡ true)
      → is_reported v (fs ++ gs) ≡ true
  reported_append [] gs h = h
  reported_append (f ∷ fs) gs h = ground (arith, reported_append fs gs, h)

  lock_first_lem :
      (us : List Vault) (here : List VaultLockError) (d : Seen)
      → IsAccounted v d here
      → Ensures (next v) (IsAccounted v) d (lock_each us >>= λ later. give (here ++ later))
  lock_first_lem us here d h = elim (Bool-cases d.down) [
    | inl down ↦
        Ensures-bind (next v) (λ d' _. d'.down ≡ true) (IsAccounted v) (lock_each us) _ d
          (IsClosing-StaysDown (lock_each us) (lock_each-IsClosing us) d down)
          λ d' later down'. ground (arith, down')
    | inr up ↦
        let reported : is_reported v here ≡ true = ground (arith, h, up) in
        Ensures-bind (next v) (λ _ _. Unit {0}) (IsAccounted v) (lock_each us) _ d
          (Ensures-trivial (next v) (lock_each us) d)
          λ d' later _.
            let all' = reported_append here later (ground (arith, reported)) in ground (arith, all')
  ]

  lock_each_lem :
      (vs : List Vault) (d : Seen)
      → Any (λ u. u ≡ v) vs
      → Ensures (next v) (IsAccounted v) d (lock_each vs)
  unfolding lock_each
  lock_each_lem [] d absent = elim absent [ ]
  lock_each_lem (u ∷ us) d (inl same) =
      subst (λ u. Ensures (next v) (IsAccounted v) d (lock_each (u ∷ us))) (sym same)
        (Ensures-bind (next v) (IsAccounted v) (IsAccounted v) (lock_if_unlocked v) _ d
          (lock_if_unlocked_lem v d) λ d' here h. lock_first_lem us here d' h)
  lock_each_lem (u ∷ us) d (inr later) =
      Ensures-bind (next v) (λ _ _. Unit {0}) (IsAccounted v) (lock_if_unlocked u) _ d
        (Ensures-trivial (next v) (lock_if_unlocked u) d)
        λ d' here _.
          Ensures-bind (next v) (IsAccounted v) (IsAccounted v) (lock_each us) _ d'
            (lock_each_lem us d' later)
            λ d'' fs h. let end' = reported_append here fs in ground (arith, h, end')

-- Whatever the system answers, when every vault of a list was locked at shutdown, then each of them
-- that no failure names was found closed and not mounted, or was closed after its mount was gone, and
-- was not opened since.
pub lock_each-IsAccounted :
    (v : Vault) (vs : List Vault)
    → Any (λ u. u ≡ v) vs
    → Ensures (next v) (λ d fs. (d.down || is_reported v fs) ≡ true) unknown (lock_each vs)
lock_each-IsAccounted v vs listed = lock_each_lem v vs unknown listed
