-- ===== src/Vault/Access/Shutdown/Closing.antt =====
-- Locking opens and mounts nothing.
use lukscrypt.Prelude.{
  text, Text, Bool, true, false, none, some, List, [], ◌∷◌, ◌≡◌, refl, if◌then◌else◌,
}
use lukscrypt.Sys.{Vault, Call, Answer, Prog, give, sys, ◌>>=◌, Bound, by_context, ok, err}
use lukscrypt.Sys.Argv.{Command}
use lukscrypt.Sys.Ensures.{Exit-cases}
use lukscrypt.Vault.Mounts.{mounted_in, is_unlocked, status_in}
use lukscrypt.Vault.Access.{
  lock_context, unmount_and_close, close_device, lock_open, lock_if_unlocked, lock_each,
}

-- A program that opens and mounts nothing.
abbrev pub opens : Call → Bool
opens (Call.exec b (Command.luks_open k p m) s) = true
opens (Call.exec b (Command.mount dev dir) s) = true
opens _ = false

abbrev pub IsClosing : {A : Type 0} → Prog A → Type 0
IsClosing (give a) = Unit
IsClosing (sys c k) = (opens c ≡ false) × ((r : Answer c) → IsClosing (k r))

IsClosing-bind :
    {A B : Type 0} (m : Prog A) (f : A → Prog B)
    → IsClosing m
    → ((a : A) → IsClosing (f a))
    → IsClosing (m >>= f)
IsClosing-bind (give a) f h k = k a
IsClosing-bind (sys c g) f (e, h) k = (e, λ r. IsClosing-bind (g r) f (h r) k)

IsClosing-if :
    {A : Type 0} (b : Bool) (m k : Prog A)
    → IsClosing m
    → IsClosing k
    → IsClosing (if b then m else k)
IsClosing-if true m k h h' = h
IsClosing-if false m k h h' = h'

module _ (u : Vault) where
  close_device-IsClosing : (b : Bound) → IsClosing (close_device b u)
  unfolding close_device
  close_device-IsClosing b = (refl, Exit-cases _ (λ out. tt) λ out e. tt)

  unmount_and_close-IsClosing : (b : Bound) → IsClosing (unmount_and_close b u)
  unfolding unmount_and_close
  unmount_and_close-IsClosing b = (refl, Exit-cases _ (λ out. close_device-IsClosing b) λ out e. tt)

  lock_now-IsClosing :
      (b : Bound) (mounts : Text) (unlocked : Bool)
      → IsClosing (
          if unlocked
          then (if mounted_in u.mount_point mounts then unmount_and_close b u else close_device b u)
          else give (some (text "vault is already locked")))
  lock_now-IsClosing b mounts false = tt
  lock_now-IsClosing b mounts true =
      IsClosing-if (mounted_in u.mount_point mounts) (unmount_and_close b u) (close_device b u)
        (unmount_and_close-IsClosing b) (close_device-IsClosing b)

  lock_context-IsClosing : (b : Bound) → IsClosing (lock_context b u)
  unfolding lock_context status_in
  lock_context-IsClosing b = (
    refl,
    λ mounts. (
      refl,
      elim [
        | ok n ↦ lock_now-IsClosing b mounts true
        | err e ↦ lock_now-IsClosing b mounts (mounted_in u.mount_point mounts)
      ],
    ),
  )

  lock_open-IsClosing : IsClosing (lock_open u)
  unfolding lock_open
  lock_open-IsClosing =
      IsClosing-bind (lock_context by_context u) _ (lock_context-IsClosing by_context)
        elim [ none ↦ tt | some e ↦ tt ]

  lock_if_unlocked-IsClosing : IsClosing (lock_if_unlocked u)
  unfolding lock_if_unlocked is_unlocked
  lock_if_unlocked-IsClosing = (
    refl,
    elim [
      | ok n ↦ lock_open-IsClosing
      | err e ↦ (
        refl,
        λ m. IsClosing-if (mounted_in u.mount_point m) (lock_open u) _ lock_open-IsClosing tt,
      )
    ],
  )

pub lock_each-IsClosing : (vs : List Vault) → IsClosing (lock_each vs)
unfolding lock_each
lock_each-IsClosing [] = tt
lock_each-IsClosing (u ∷ us) =
    IsClosing-bind (lock_if_unlocked u) _ (lock_if_unlocked-IsClosing u)
      λ here. IsClosing-bind (lock_each us) _ (lock_each-IsClosing us) λ later. tt
