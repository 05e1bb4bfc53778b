-- ===== src/Sys/Quiet.antt =====
-- Programs that only deal with the operating system, and leave the database and the handler's own
-- state alone.
use lukscrypt.Prelude.{Bool, true, false, ◌≡◌, refl, subst, sym, if◌then◌else◌}
use lukscrypt.Sys.{Call, Answer, Prog, give, sys, ◌>>=◌}
use lukscrypt.Sys.Ensures.{Ensures}

abbrev pub is_state : Call → Bool
is_state (Call.insert_vault n p g m d) = true
is_state Call.list_vaults = true
is_state (Call.find_vault id) = true
is_state (Call.find_vault_named n) = true
is_state (Call.delete_record id) = true
is_state (Call.update_size id g) = true
is_state (Call.track id) = true
is_state (Call.untrack id) = true
is_state _ = false

abbrev pub IsQuiet : {A : Type 0} → Prog A → Type 0
IsQuiet (give a) = Unit
IsQuiet (sys c k) = (is_state c ≡ false) × ((r : Answer c) → IsQuiet (k r))

pub IsQuiet-bind :
    {A B : Type 0} (m : Prog A) (f : A → Prog B)
    → IsQuiet m
    → ((a : A) → IsQuiet (f a))
    → IsQuiet (m >>= f)
IsQuiet-bind (give a) f h k = k a
IsQuiet-bind (sys c g) f (e, h) k = (e, λ r. IsQuiet-bind (g r) f (h r) k)

pub IsQuiet-if :
    {A : Type 0} (b : Bool) (m k : Prog A) → IsQuiet m → IsQuiet k → IsQuiet (if b then m else k)
IsQuiet-if true m k h h' = h
IsQuiet-if false m k h h' = h'

pub Ensures-trivial :
    {S : Type 0} (next : (c : Call) → Answer c → S → S) {A : Type 0} (m : Prog A) (s : S)
    → Ensures next (λ _ _. Unit {0}) s m
Ensures-trivial next (give a) s = tt
Ensures-trivial next (sys c k) s = λ r. Ensures-trivial next (k r) (next c r s)

module _ {S T : Type 0} (next : (c : Call) → Answer c → S → S)
    (next' : (c : Call) → Answer c → S → T → T) where
  -- Two monitors beside each other, of which the second one reads the first.
  abbrev pub both : (c : Call) → Answer c → S × T → S × T
  both c r (s, t) = (next c r s, next' c r (next c r s) t)

  -- The second one only reads the calls to the database and the handler's state.
  abbrev pub IsBlind : Type 0
  IsBlind = (c : Call) (r : Answer c) (s : S) (t : T) → is_state c ≡ false → next' c r s t ≡ t

  pub Ensures-both :
      IsBlind
      → {A : Type 0} (P : S → A → Type 0) (m : Prog A) (s : S) (t : T) → IsQuiet m
      → Ensures next P s m
      → Ensures both (λ u a. P u.0 a × (u.1 ≡ t)) (s, t) m
  Ensures-both blind P (give a) s t q h = (h, refl)
  Ensures-both blind P (sys c k) s t (e, q) h = λ r.
      subst (λ t'. Ensures both (λ u a. P u.0 a × (u.1 ≡ t)) (next c r s, t') (k r))
        (sym (blind c r (next c r s) t e)) (Ensures-both blind P (k r) (next c r s) t (q r) (h r))

  -- A program that leaves the state alone leaves the second monitor as it is.
  pub Ensures-quiet :
      IsBlind
      → {A : Type 0} (m : Prog A) (s : S) (t : T) → IsQuiet m
      → Ensures both (λ u a. Unit {0} × (u.1 ≡ t)) (s, t) m
  Ensures-quiet blind m s t q =
      Ensures-both blind (λ _ _. Unit {0}) m s t q (Ensures-trivial next m s)
