-- ===== src/Api/Limiter/Bound.antt =====
-- How many credential guesses the unlock limiter lets one address make.
use lukscrypt.Prelude.{
  ℕ, ◌+◌, ◌-◌, ◌*◌, ◌/◌, ◌≤◌, ◌≡◌, ◌∙◌, inl, inr, Option, none, some, List, [], ◌∷◌, arith,
  if◌then◌else◌, Bool-cases, nat_eq, Text, text_beq, text_beq_iff, text_eq,
}
use lukscrypt.Prelude.Dict.{
  lookup, lookup-insert, NodupKeys, insert-NodupKeys, lookup-discard, discard-NodupKeys, unless,
}
use Prim.Native.Nat.{min}
use lukscrypt.Api.Limiter.{
  Limiters, second, Entry, Entries, entry_or_new, is_idle, Event, attempted, swept, step, grants,
  granted,
}

-- The documented behaviour of a token bucket. `tokens s t` is its content at time `t` in
-- nanoseconds of refill: one token is worth one interval.
pub record IsTokenBucket (r : Limiters) : Type 1 where
  pub Of : (interval burst : ℕ) → r.State → Type 0
  pub tokens : r.State → ℕ → ℕ
  pub last : r.State → ℕ
  pub new_of : (i b : ℕ) → Of i b (r.new i b)
  pub new_full : (i b t : ℕ) → tokens (r.new i b) t ≡ b * i
  pub new_last : (i b : ℕ) → last (r.new i b) ≡ 0
  pub allow_of : (i b t : ℕ) (s : r.State) → Of i b s → Of i b (r.allow t s).1
  pub allow_last : (t : ℕ) (s : r.State) → last (r.allow t s).1 ≡ t
  -- an event that is allowed costs a token, any other nothing
  pub allow_cost :
      (i b t : ℕ) (s : r.State)
      → Of i b s
      → last s ≤ t
      → tokens (r.allow t s).1 t + (if (r.allow t s).0 then i else 0) ≡ tokens s t
  -- it is refilled at a steady rate, up to the burst
  pub refill :
      (i b t u : ℕ) (s : r.State)
      → Of i b s
      → last s ≤ t
      → t ≤ u
      → tokens s u ≡ min (b * i) (tokens s t + (u - t))

module _ (r : Limiters) (l : IsTokenBucket r) where
  -- What the address may still spend.
  abbrev budget : ℕ → Option (Entry r) → ℕ
  budget t none = 5 * (30 * second)
  budget t (some e) = l.tokens e.limiter t

  abbrev IsSound : ℕ → Option (Entry r) → Type 0
  IsSound t none = Unit
  IsSound t (some e) =
      l.Of (30 * second) 5 e.limiter × (l.last e.limiter ≡ e.last_seen) × (e.last_seen ≤ t)

  IsSound-mono : (t u : ℕ) (o : Option (Entry r)) → t ≤ u → IsSound t o → IsSound u o
  IsSound-mono t u none h k = tt
  IsSound-mono t u (some e) h (a, b, c) = (a, b, omega arith)

  budget-later :
      (t u : ℕ) (o : Option (Entry r)) → t ≤ u → IsSound t o → budget u o ≤ budget t o + (u - t)
  budget-later t u none h k = omega arith
  budget-later t u (some e) h (a, b, c) =
      omega (arith, l.refill (30 * second) 5 t u e.limiter a (omega arith) h)

  -- An idle entry is full, so a sweep changes nobody's budget.
  budget-swept :
      (t : ℕ) (o : Option (Entry r)) → IsSound t o → budget t (unless (is_idle r t) o) ≤ budget t o
  budget-swept t none k = omega arith
  budget-swept t (some e) (a, b, c) = elim (Bool-cases (is_idle r t e)) [
    | inl idle ↦
        let filled = l.refill (30 * second) 5 e.last_seen t e.limiter a (omega arith) c in
        rw idle (ground (arith, filled))
    | inr busy ↦ rw busy (omega arith)
  ]

  IsSound-swept : (t : ℕ) (o : Option (Entry r)) → IsSound t o → IsSound t (unless (is_idle r t) o)
  IsSound-swept t none k = tt
  IsSound-swept t (some e) k = elim (Bool-cases (is_idle r t e)) [
    | inl idle ↦ rw idle tt
    | inr busy ↦ rw busy k
  ]

  new_entry : ℕ → Option (Entry r) → Entry r
  new_entry now o = record {
    limiter = (r.allow now (entry_or_new r (30 * second) 5 o)).1;
    last_seen = now;
  }

  abbrev cost : ℕ → Option (Entry r) → ℕ
  cost now o = if (r.allow now (entry_or_new r (30 * second) 5 o)).0 then 30 * second else 0

  budget-new_entry :
      (now : ℕ) (o : Option (Entry r))
      → IsSound now o
      → budget now (some (new_entry now o)) + cost now o ≡ budget now o
  unfolding new_entry
  budget-new_entry now none k =
      l.allow_cost (30 * second) 5 now (r.new (30 * second) 5) (l.new_of (30 * second) 5)
        (omega (arith, l.new_last (30 * second) 5))
      ∙ l.new_full (30 * second) 5 now
  budget-new_entry now (some e) (a, b, c) =
      l.allow_cost (30 * second) 5 now e.limiter a (omega arith)

  IsSound-new_entry :
      (now : ℕ) (o : Option (Entry r)) → IsSound now o → IsSound now (some (new_entry now o))
  unfolding new_entry
  IsSound-new_entry now none k =
      (l.allow_of (30 * second) 5 now _ (l.new_of (30 * second) 5), l.allow_last now _, omega arith)
  IsSound-new_entry now (some e) (a, b, c) =
      (l.allow_of (30 * second) 5 now _ a, l.allow_last now _, omega arith)

  abbrev time : Event → ℕ
  time (attempted now ip) = now
  time (swept now) = now

  granted_cost :
      (now : ℕ) (o : Option (Entry r))
      → IsSound now o
      → (if (r.allow now (entry_or_new r (30 * second) 5 o)).0 then 1 else 0) * (30 * second)
          + budget now (some (new_entry now o))
        ≤ budget now o
  granted_cost now o k =
      let spent = budget-new_entry now o k in
      elim (Bool-cases (r.allow now (entry_or_new r (30 * second) 5 o)).0) [
        | inl allowed ↦ let spent' = rw allowed at spent in rw allowed (omega arith)
        | inr refused ↦ let spent' = rw refused at spent in rw refused (omega arith)
      ]

  -- What one event does to the address: what it is granted comes out of its budget.
  step-budget :
      (ip : Text) (e : Event) (m : Entries r)
      → NodupKeys m
      → IsSound (time e) (lookup ip m)
      → IsSound (time e) (lookup ip (step r e m))
        × (grants r ip e m * (30 * second) + budget (time e) (lookup ip (step r e m))
            ≤ budget (time e) (lookup ip m))
  unfolding step grants new_entry
  step-budget ip (swept now) m u k =
      rw (lookup-discard (is_idle r now) ip m u)
        (IsSound-swept now (lookup ip m) k, omega (arith, budget-swept now (lookup ip m) k))
  step-budget ip (attempted now other) m u k = elim (Bool-cases (text_beq other ip)) [
    | inl same ↦
        rw
          (
            lookup-insert other ip (new_entry now (lookup other m)) m,
            same,
            (text_beq_iff other ip).0 same,
          )
          (IsSound-new_entry now (lookup ip m) k, granted_cost now (lookup ip m) k)
    | inr differs ↦
        rw (lookup-insert other ip (new_entry now (lookup other m)) m, differs) (k, omega arith)
  ]

  step-NodupKeys : (e : Event) (m : Entries r) → NodupKeys m → NodupKeys (step r e m)
  unfolding step
  step-NodupKeys (attempted now ip) m u = insert-NodupKeys ip _ m u
  step-NodupKeys (swept now) m u = discard-NodupKeys (is_idle r now) m u

  -- The times of the events do not fall, and lie between two others.
  abbrev pub AreWithin : ℕ → ℕ → List Event → Type 0
  AreWithin t u [] = t ≤ u
  AreWithin t u (e ∷ es) = (t ≤ time e) × AreWithin (time e) u es

  AreWithin-le : (t u : ℕ) (es : List Event) → AreWithin t u es → t ≤ u
  AreWithin-le t u [] w = w
  AreWithin-le t u (e ∷ es) (h, w) = omega (arith, AreWithin-le (time e) u es w)

  granted-budget :
      (ip : Text) (t u : ℕ) (es : List Event) (m : Entries r)
      → NodupKeys m
      → IsSound t (lookup ip m)
      → AreWithin t u es
      → granted r ip es m * (30 * second) ≤ budget t (lookup ip m) + (u - t)
  unfolding granted
  granted-budget ip t u [] m n k w = omega arith
  granted-budget ip t u (e ∷ es) m n k (h, w) =
      let k' = IsSound-mono t (time e) (lookup ip m) h k in
      let (sound, spent) = step-budget ip e m n k' in
      omega (
        arith,
        granted-budget ip (time e) u es (step r e m) (step-NodupKeys e m n) sound w,
        budget-later t (time e) (lookup ip m) h k,
        spent,
        AreWithin-le (time e) u es w,
      )

  -- Between two times an address gets at most five unlock attempts and one more for each thirty
  -- seconds, whatever others do and whenever idle entries are swept out of the map.
  pub granted-le :
      (ip : Text) (t u : ℕ) (es : List Event)
      → AreWithin t u es
      → granted r ip es [] ≤ 5 + (u - t) / (30 * second)
  unfolding lookup
  granted-le ip t u es w = omega (arith, granted-budget ip t u es [] tt tt w)
