-- ===== src/Api/Reserve/Protocol.antt =====
-- Creations in flight and their reservations, over any sequence of events.
use lukscrypt.Prelude.{
  ℕ, zero, suc, Text, Bool, true, false, ◌||◌, Option, none, some, List, [], ◌∷◌, ◌∙◌, sym, subst,
  ◌≡◌, refl, inl, inr, text_beq, any, Option-cases, arith,
}
use lukscrypt.Api.Reserve.Keys.{
  has_key-cons, has_key-other, has_key-delete_key, text_beq_sym, first_key,
}
use lukscrypt.Api.Reserve.{Pending, has_key, in_flight, answer, reserve, release_pending}

-- A creation goroutine that is still running.
pub record Job : Type 0 where
  pub name : Text
  pub path : Text

pub record Server : Type 0 where
  pub pending : Pending
  pub jobs : List Job

unfoldable pub take_out : ℕ → List Job → Option (Job × List Job)
take_out n [] = none
take_out zero (j ∷ js) = some (j, js)
take_out (suc n) (j ∷ js) = elim (take_out n js) [ none ↦ none | some (k, ks) ↦ some (k, j ∷ ks) ]

-- A creation asks for its reservation, or the n-th running one ends and gives its own back.
pub data Event : Type 0 where
  asks : (name path : Text) → Event
  ends : ℕ → Event

unfoldable pub ask_lem : (name path : Text) → Option Text × Pending → List Job → Server
ask_lem name path (some e, p) js = record { pending = p; jobs = js }
ask_lem name path (none, p) js = record {
  pending = p;
  jobs = record { name = name; path = path } ∷ js;
}

unfoldable pub end_job : Server → Option (Job × List Job) → Server
end_job s none = s
end_job s (some (j, js)) = record { pending = release_pending j.name j.path s.pending; jobs = js }

unfoldable pub step : Event → Server → Server
unfolding ask_lem end_job take_out
step (asks name path) s = ask_lem name path (reserve name path s.pending) s.jobs
step (ends n) s = end_job s (take_out n s.jobs)

unfoldable pub run : List Event → Server → Server
unfolding step
run [] s = s
run (e ∷ es) s = run es (step e s)

abbrev pub at_start : Server
at_start = record { pending = record { names = []; paths = [] }; jobs = [] }

abbrev pub named : Text → Job → Bool
named x j = text_beq j.name x

abbrev pub stored : Text → Job → Bool
stored x j = text_beq j.path x

-- Every running creation has its reservations, and no two share a name or a path.
AreReserved : Pending → List Job → Type 0
AreReserved p [] = Unit
AreReserved p (j ∷ js) =
    ((has_key j.name p.names ≡ true) × (has_key j.path p.paths ≡ true))
    × ((any (named j.name) js ≡ false) × (any (stored j.path) js ≡ false))
    × AreReserved p js

-- The names and paths that are reserved are not those of a running creation.
AreReserved-free :
    (name path : Text) (p : Pending) (js : List Job)
    → AreReserved p js
    → has_key name p.names ≡ false
    → has_key path p.paths ≡ false
    → (any (named name) js ≡ false) × (any (stored path) js ≡ false)
unfolding AreReserved
AreReserved-free name path p [] h f g = (refl, refl)
AreReserved-free name path p (j ∷ js) ((a, b), u, h) f g =
    let (c, d) = AreReserved-free name path p js h f g in
    let e = has_key-other j.name name p.names a f in
    let e' = has_key-other j.path path p.paths b g in rw (e, e') (c, d)

AreReserved-cons :
    (name path : Text) (p : Pending) (js : List Job)
    → AreReserved p js
    → AreReserved (record { names = name ∷ p.names; paths = path ∷ p.paths }) js
unfolding AreReserved
AreReserved-cons name path p [] h = tt
AreReserved-cons name path p (j ∷ js) ((a, b), u, h) = (
  (has_key-cons j.name name p.names a, has_key-cons j.path path p.paths b),
  u,
  AreReserved-cons name path p js h,
)

abbrev Holds : Server → Type 0
Holds s = AreReserved s.pending s.jobs

in_flight-none :
    (name path : Text) (p : Pending)
    → in_flight name path p ≡ none
    → (has_key name p.names ≡ false) × (has_key path p.paths ≡ false)
unfolding in_flight
in_flight-none name path p h = ground arith

reserve_cases :
    (name path : Text) (p : Pending) (o : Option Text)
    → in_flight name path p ≡ o
    → (js : List Job) → AreReserved p js
    → Holds (ask_lem name path (reserve name path p) js)
unfolding reserve ask_lem AreReserved
reserve_cases name path p (some e) h js k =
    subst (λ o. Holds (ask_lem name path (answer name path p o) js)) (sym h) k
reserve_cases name path p none h js k =
    let (free, fresh) = in_flight-none name path p h in
    subst (λ o. Holds (ask_lem name path (answer name path p o) js)) (sym h)
      (
        (first_key name p.names, first_key path p.paths),
        AreReserved-free name path p js k free fresh,
        AreReserved-cons name path p js k,
      )

module _ (f : Job → Bool) where
  any-take_out :
      (n : ℕ) (js : List Job) (j : Job) (rest : List Job)
      → take_out n js ≡ some (j, rest)
      → any f js ≡ (f j || any f rest)
  unfolding take_out
  any-take_out n [] j rest h = cc
  any-take_out zero (k ∷ js) j rest h = ground arith
  any-take_out (suc n) (k ∷ js) j rest h = elim (Option-cases (take_out n js)) [
    | inl e ↦ absurd (ground arith)
    | inr ((i, is), e) ↦ let ih = any-take_out n js i is e in ground arith
  ]

or_false : (a b : Bool) → (a || b) ≡ false → (a ≡ false) × (b ≡ false)
or_false false b h = (refl, h)
or_false true b h = cc

-- The others have their reservations, and none of the one that is taken out.
abbrev Leaves : Pending → Job × List Job → Type 0
Leaves p (j, js) =
    AreReserved p js × (any (named j.name) js ≡ false) × (any (stored j.path) js ≡ false)

take_out-AreReserved :
    (p : Pending) (n : ℕ) (js : List Job) (j : Job) (rest : List Job)
    → AreReserved p js
    → take_out n js ≡ some (j, rest)
    → Leaves p (j, rest)
unfolding take_out AreReserved
take_out-AreReserved p n [] j rest h e = cc
take_out-AreReserved p zero (k ∷ js) j rest (a, (u, w), h) e =
    let same : ◌≡◌ {A = Job × List Job} (k, js) (j, rest) = cc (e) in
    subst (Leaves p) same (h, u, w)
take_out-AreReserved p (suc n) (k ∷ js) j rest (a, (u, w), h) e =
    elim (Option-cases (take_out n js)) [
      | inl missing ↦ absurd (ground arith)
      | inr ((i, is), found) ↦
          let (kept, v, x) = take_out-AreReserved p n js i is h found in
          let (b, c) =
            or_false (named k.name i) (any (named k.name) is)
              (sym (any-take_out (named k.name) n js i is found) ∙ u) in
          let (b', c') =
            or_false (stored k.path i) (any (stored k.path) is)
              (sym (any-take_out (stored k.path) n js i is found) ∙ w) in
          let same : ◌≡◌ {A = Job × List Job} (i, k ∷ is) (j, rest) = ground arith in
          subst (Leaves p) same (
            (a, (c, c'), kept),
            rw (text_beq_sym k.name i.name, b) v,
            rw (text_beq_sym k.path i.path, b') x,
          )
    ]

release-AreReserved :
    (name path : Text) (p : Pending) (js : List Job)
    → AreReserved p js
    → any (named name) js ≡ false
    → any (stored path) js ≡ false
    → AreReserved (release_pending name path p) js
unfolding AreReserved release_pending
release-AreReserved name path p [] h u w = tt
release-AreReserved name path p (j ∷ js) ((a, b), v, h) u w =
    let (c, u') = or_false (named name j) (any (named name) js) u in
    let (d, w') = or_false (stored path j) (any (stored path) js) w in
    (
      (
        has_key-delete_key j.name name p.names (text_beq_sym name j.name ∙ c) a,
        has_key-delete_key j.path path p.paths (text_beq_sym path j.path ∙ d) b,
      ),
      v,
      release-AreReserved name path p js h u' w',
    )

end_cases :
    (n : ℕ) (s : Server) (o : Option (Job × List Job))
    → take_out n s.jobs ≡ o
    → Holds s
    → Holds (end_job s o)
unfolding end_job
end_cases n s none e h = h
end_cases n s (some (j, rest)) e h =
    let (kept, u, w) = take_out-AreReserved s.pending n s.jobs j rest h e in
    release-AreReserved j.name j.path s.pending rest kept u w

step-Holds : (e : Event) (s : Server) → Holds s → Holds (step e s)
unfolding step
step-Holds (asks name path) s h =
    reserve_cases name path s.pending (in_flight name path s.pending) refl s.jobs h
step-Holds (ends n) s h = end_cases n s (take_out n s.jobs) refl h

run-Holds : (es : List Event) (s : Server) → Holds s → Holds (run es s)
unfolding run
run-Holds [] s h = h
run-Holds (e ∷ es) s h = run-Holds es (step e s) (step-Holds e s h)

-- Whatever creations have asked and ended, in any order: a name and an image path that are found
-- free of reservations, as a creation and an import require, belong to no running creation, so no
-- clean-up of a running creation will remove that image.
pub run-in_flight :
    (es : List Event) (name path : Text)
    → in_flight name path (run es at_start).pending ≡ none
    → (any (named name) (run es at_start).jobs ≡ false)
      × (any (stored path) (run es at_start).jobs ≡ false)
unfolding AreReserved
run-in_flight es name path h =
    let (free, fresh) = in_flight-none name path (run es at_start).pending h in
    AreReserved-free name path (run es at_start).pending (run es at_start).jobs
      (run-Holds es at_start tt) free fresh
