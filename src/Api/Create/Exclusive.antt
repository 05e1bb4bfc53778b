-- ===== src/Api/Create/Exclusive.antt =====
-- The creations that run at once: the handler's state over any sequence of requests and endings,
-- as the protocol of reservations sees it.
use lukscrypt.Prelude.{
  ℕ, zero, suc, Text, Bool, false, Option, none, some, List, [], ◌∷◌, ◌++◌, map, ◌≡◌, refl, ap, sym,
  ◌∙◌, text_beq, any, arith,
}
use lukscrypt.Vault.Create.{img_path}
use lukscrypt.Api.Reply.{Reply, done, refusal}
use lukscrypt.Api.Reserve.{NewVault, Dirs, in_flight, reserve}
use lukscrypt.Api.Reserve.Protocol
use lukscrypt.Api.Reserve.Protocol.{
  Job, Server, take_out, end_job, ask_lem, named, stored, run-in_flight,
}
use lukscrypt.Api.Create.{
  Launch, Creations, no_creations, image_of, create_vault, drop_launch, end_launch, finish,
  forget_job, sweep_jobs,
}
use lukscrypt.Api.Create.Account.{IsAccounted, IsLaunchOf, image_path, create_vault-IsAccounted}
use lukscrypt.Api.Reserve.Accepted.{IsUnreserved, IsUnreserved-in_flight}

-- What changes the handler's state of creations.
pub data Event : Type 0 where
  requested : (now : ℕ) → (random_hex : Option Text) → Option NewVault → Event
  finished : ℕ → Event
  forgotten : (id : Text) → Event
  swept : (now : ℕ) → Event

unfoldable pub step : Dirs → Event → Creations → Creations
unfolding create_vault finish forget_job sweep_jobs
step d (requested now random_hex body) s = (create_vault d now random_hex body s).1
step d (finished n) s = finish n s
step d (forgotten id) s = forget_job id s
step d (swept now) s = sweep_jobs now s

unfoldable pub run : Dirs → List Event → Creations → Creations
unfolding step
run d [] s = s
run d (e ∷ es) s = run d es (step d e s)

-- The file that its `Create` makes.
abbrev pub image : Launch → Text
image l = img_path l.path l.name

as_job : Launch → Job
as_job l = record { name = l.name; path = img_path l.path l.name }

view : Creations → Server
unfolding as_job
view s = record { pending = s.pending; jobs = map as_job s.running }

-- A run of the protocol of reservations that ends as this state is seen.
abbrev IsSeen : Server → Server → Type 0
IsSeen v w = (es : List Protocol.Event) × (w ≡ Protocol.run es v)

abbrev job_of : Option (Launch × List Launch) → Option (Job × List Job)
job_of none = none
job_of (some (l, ls)) = some (as_job l, map as_job ls)

take_out-map : (n : ℕ) (ls : List Launch) → take_out n (map as_job ls) ≡ job_of (drop_launch n ls)
unfolding take_out drop_launch
take_out-map n [] = ground arith
take_out-map zero (l ∷ ls) = refl
take_out-map (suc n) (l ∷ ls) = rw (take_out-map n ls) (rest (drop_launch n ls))
  where
    rest :
        (o : Option (Launch × List Launch))
        → (elim (job_of o) [ none ↦ none | some (k, ks) ↦ some (k, as_job l ∷ ks) ])
          ≡ job_of (elim o [ none ↦ none | some (k, ks) ↦ some (k, l ∷ ks) ])
    rest none = refl
    rest (some (k, ks)) = refl

end_launch-view :
    (o : Option (Launch × List Launch)) (s : Creations)
    → view (end_launch o s) ≡ end_job (view s) (job_of o)
unfolding view end_launch end_job as_job
end_launch-view none s = refl
end_launch-view (some (l, ls)) s = refl

finish-IsSeen : (n : ℕ) (s : Creations) → IsSeen (view s) (view (finish n s))
unfolding finish view Protocol.run Protocol.step
finish-IsSeen n s = (
  Protocol.ends n ∷ [],
  rw (take_out-map n s.running) (end_launch-view (drop_launch n s.running) s),
)

asks-view :
    (r : NewVault) (l : Launch) (s : Creations) (jobs : List (Text × ℕ))
    → IsUnreserved r.name (image_path r) s.pending
    → IsLaunchOf r l
    → view (record {
      pending = record { names = r.name ∷ s.pending.names; paths = image_path r ∷ s.pending.paths };
      jobs = jobs;
      running = l ∷ s.running;
    })
      ≡ Protocol.run (Protocol.asks r.name (image_path r) ∷ []) (view s)
unfolding view as_job img_path reserve ask_lem Protocol.run Protocol.step
asks-view r l s jobs free (name, path, _, _, _) =
    rw (IsUnreserved-in_flight r.name (image_path r) s.pending free, name, path) refl

request-IsSeen :
    (d : Dirs) (now : ℕ) (random_hex : Option Text) (body : Option NewVault) (s s' : Creations)
    (reply : Reply Text)
    → IsAccounted d now random_hex body s (reply, s')
    → IsSeen (view s) (view s')
unfolding Protocol.run
request-IsSeen d now random_hex none s s' (done id) h = absurd h
request-IsSeen d now random_hex (some r) s s' (done id) (_, _, free, (l, started, same)) =
    (Protocol.asks r.name (image_path r) ∷ [], ap view same ∙ asks-view r l s _ free started)
request-IsSeen d now random_hex none s s' (refusal status e) (_, h) = ([], ap view h)
request-IsSeen d now random_hex (some r) s s' (refusal status e) (_, h) = ([], ap view h)

step-IsSeen : (d : Dirs) (e : Event) (s : Creations) → IsSeen (view s) (view (step d e s))
unfolding step forget_job sweep_jobs view Protocol.run
step-IsSeen d (requested now random_hex body) s =
    let after = create_vault d now random_hex body s in
    request-IsSeen d now random_hex body s after.1 after.0
      (create_vault-IsAccounted d now random_hex body s)
step-IsSeen d (finished n) s = finish-IsSeen n s
step-IsSeen d (forgotten id) s = ([], refl)
step-IsSeen d (swept now) s = ([], refl)

run-append :
    (es fs : List Protocol.Event) (v : Server)
    → Protocol.run (es ++ fs) v ≡ Protocol.run fs (Protocol.run es v)
unfolding Protocol.run
run-append [] fs v = refl
run-append (e ∷ es) fs v = run-append es fs (Protocol.step e v)

run-IsSeen : (d : Dirs) (es : List Event) (s : Creations) → IsSeen (view s) (view (run d es s))
unfolding run Protocol.run
run-IsSeen d [] s = ([], refl)
run-IsSeen d (e ∷ es) s =
    let (fs, h) = step-IsSeen d e s in
    let (gs, k) = run-IsSeen d es (step d e s) in
    (fs ++ gs, k ∙ ap (Protocol.run gs) h ∙ sym (run-append fs gs (view s)))

any-map :
    {A B : Type 0} (p : B → Bool) (f : A → B) (xs : List A)
    → any p (map f xs) ≡ any (λ x. p (f x)) xs
any-map p f [] = refl
any-map p f (x ∷ xs) = rw (any-map p f xs) refl

-- A name and an image that are not reserved are those of no running creation.
pub unreserved :
    (d : Dirs) (es : List Event) (name path : Text)
    → in_flight name path (run d es no_creations).pending ≡ none
    → (any (λ l. text_beq l.name name) (run d es no_creations).running ≡ false)
      × (any (λ l. text_beq (image l) path) (run d es no_creations).running ≡ false)
unfolding view as_job no_creations
unreserved d es name path h =
    let (fs, k) = run-IsSeen d es no_creations in
    let (u, w) = run-in_flight fs name path (ap (λ v. in_flight name path v.pending) (sym k) ∙ h) in
    (
      sym (any-map (named name) as_job _) ∙ ap (λ v. any (named name) v.jobs) k ∙ u,
      sym (any-map (stored path) as_job _) ∙ ap (λ v. any (stored path) v.jobs) k ∙ w,
    )

confirmed :
    (d : Dirs) (now : ℕ) (random_hex : Option Text) (r : NewVault) (id : Text) (s s' : Creations)
    (reply : Reply Text)
    → reply ≡ done id
    → IsAccounted d now random_hex (some r) s (reply, s')
    → in_flight r.name (image_of r) s.pending ≡ none
unfolding image_of img_path
confirmed d now random_hex r id s s' (done j) e (_, _, free, _) =
    IsUnreserved-in_flight r.name (image_path r) s.pending free
confirmed d now random_hex r id s s' (refusal status m) e h = cc

-- Whatever requests and endings came before: a request for a creation that is answered by a job's
-- id asks for a name and an image file that no running creation has.
pub create_vault-exclusive :
    (d : Dirs) (es : List Event) (now : ℕ) (random_hex : Option Text) (r : NewVault) (id : Text)
    → let s = run d es no_creations in
      (create_vault d now random_hex (some r) s).0 ≡ done id
      → (any (λ l. text_beq l.name r.name) s.running ≡ false)
        × (any (λ l. text_beq (image l) (image_of r)) s.running ≡ false)
create_vault-exclusive d es now random_hex r id h =
    let s = run d es no_creations in
    let after = create_vault d now random_hex (some r) s in
    unreserved d es r.name (image_of r) (
      confirmed d now random_hex r id s after.1 after.0 h
        (create_vault-IsAccounted d now random_hex (some r) s))
