-- ===== src/Sys/Ensures.antt =====
-- What a program guarantees whatever its calls answer.
use lukscrypt.Prelude.{Text, Bool, true, false, Option, none, some, ◌≡◌, refl, if◌then◌else◌}
use lukscrypt.Sys.{Call, Answer, Exit, Prog, give, sys, ◌>>=◌}

-- A monitor watches the calls and their answers from a start state `s`.
module _ {S : Type 0} (next : (c : Call) → Answer c → S → S) where
  -- For all answers, the result `a` and the monitor's final state `s` satisfy `P s a`.
  abbrev pub Ensures : {A : Type 0} → (S → A → Type 0) → S → Prog A → Type 0
  Ensures P s (give a) = P s a
  Ensures P s (sys c k) = (r : Answer c) → Ensures P (next c r s) (k r)

  pub Ensures-bind :
      {A B : Type 0} (Q : S → A → Type 0) (P : S → B → Type 0) (m : Prog A) (f : A → Prog B) (s : S)
      → Ensures Q s m
      → ((s' : S) (a : A) → Q s' a → Ensures P s' (f a))
      → Ensures P s (m >>= f)
  Ensures-bind Q P (give a) f s h k = k s a h
  Ensures-bind Q P (sys c g) f s h k = λ r. Ensures-bind Q P (g r) f (next c r s) (h r) k

  pub Ensures-mono :
      {A : Type 0} (Q P : S → A → Type 0) (m : Prog A) (s : S)
      → Ensures Q s m
      → ((s' : S) (a : A) → Q s' a → P s' a)
      → Ensures P s m
  Ensures-mono Q P (give a) s h k = k s a h
  Ensures-mono Q P (sys c g) s h k = λ r. Ensures-mono Q P (g r) (next c r s) (h r) k

  pub Ensures-if :
      {A : Type 0} (P : S → A → Type 0) (b : Bool) (m k : Prog A) (s : S)
      → (b ≡ true → Ensures P s m)
      → (b ≡ false → Ensures P s k)
      → Ensures P s (if b then m else k)
  Ensures-if P true m k s h h' = h refl
  Ensures-if P false m k s h h' = h' refl

-- The two ways in which a subprocess ends.
pub Exit-cases {ℓ} :
    (P : Exit → Type ℓ)
    → ((out : Text) → P (record { out = out; failed = none }))
    → ((out e : Text) → P (record { out = out; failed = some e }))
    → (r : Exit) → P r
Exit-cases P h k r = go r.failed
  where
    go : (o : Option Text) → P (record { out = r.out; failed = o })
    go none = h r.out
    go (some e) = k r.out e

-- One run, with the answers of a system that keeps a state of its own.
module _ {W S : Type 0} (answer : (c : Call) → W → Answer c × W)
    (next : (c : Call) → Answer c → S → S) where
  abbrev pub run : {A : Type 0} → Prog A → W → S → A × W × S
  run (give a) w s = (a, w, s)
  run (sys c k) w s = let (r, w') = answer c w in run (k r) w' (next c r s)

  -- A guarantee holds of every run.
  pub run-Ensures :
      {A : Type 0} (P : S → A → Type 0) (m : Prog A) (w : W) (s : S)
      → Ensures next P s m
      → P (run m w s).2 (run m w s).0
  run-Ensures P (give a) w s h = h
  run-Ensures P (sys c k) w s h =
      run-Ensures P (k (answer c w).0) (answer c w).1 (next c (answer c w).0 s) (h (answer c w).0)

  pub run-bind :
      {A B : Type 0} (m : Prog A) (f : A → Prog B) (w : W) (s : S)
      → run (m >>= f) w s ≡ run (f (run m w s).0) (run m w s).1 (run m w s).2
  run-bind (give a) f w s = refl
  run-bind (sys c k) f w s = run-bind (k (answer c w).0) f (answer c w).1 (next c (answer c w).0 s)
