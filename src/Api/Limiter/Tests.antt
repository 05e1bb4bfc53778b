-- ===== src/Api/Limiter/Tests.antt =====
-- A token bucket in exact arithmetic, and the unlock limiter at a concrete run.
use lukscrypt.Prelude.{
  text_eq, nat_eq, ℕ, ◌+◌, ◌-◌, ◌*◌, ◌≤◌, Bool, ◌≡◌, refl, arith, leb, if◌then◌else◌,
}
use Prim.Native.Nat.{min}
use lukscrypt.Api.Limiter.{Limiters}
use lukscrypt.Api.Limiter.Bound.{IsTokenBucket}

pub record Bucket : Type 0 where
  pub interval : ℕ
  pub burst : ℕ
  pub level : ℕ
  pub at : ℕ

abbrev pub level_at : Bucket → ℕ → ℕ
level_at s t = min (s.burst * s.interval) (s.level + (t - s.at))

abbrev pub bucket_allow : ℕ → Bucket → Bool × Bucket
bucket_allow t s =
    let level = level_at s t in
    let enough = leb s.interval level in
    (enough, record s { level = level - (if enough then s.interval else 0); at = t })

abbrev pub buckets : Limiters
buckets = record {
  State = Bucket;
  new = λ i b. record { interval = i; burst = b; level = b * i; at = 0 };
  allow = bucket_allow;
}

abbrev IsBucket : (interval burst : ℕ) → Bucket → Type 0
IsBucket i b s = (s.interval ≡ i) × (s.burst ≡ b) × (s.level ≤ b * i)

bucket_allow_of : (i b t : ℕ) (s : Bucket) → IsBucket i b s → IsBucket i b (bucket_allow t s).1
bucket_allow_of i b t s (p, q, h) = (p, q, ground arith)

bucket_allow_cost :
    (i b t : ℕ) (s : Bucket)
    → IsBucket i b s
    → s.at ≤ t
    → level_at (bucket_allow t s).1 t + (if (bucket_allow t s).0 then i else 0) ≡ level_at s t
bucket_allow_cost i b t s (p, q, h) k = ground arith

bucket_refill :
    (i b t u : ℕ) (s : Bucket)
    → IsBucket i b s
    → s.at ≤ t
    → t ≤ u
    → level_at s u ≡ min (b * i) (level_at s t + (u - t))
bucket_refill i b t u s (p, q, h) k l = ground arith

pub buckets-IsTokenBucket : IsTokenBucket buckets
buckets-IsTokenBucket = record {
  Of = IsBucket;
  tokens = level_at;
  last = λ s. s.at;
  new_of = λ i b. (refl, refl, omega arith);
  new_full = λ i b t. omega arith;
  new_last = λ i b. refl;
  allow_of = bucket_allow_of;
  allow_last = λ t s. refl;
  allow_cost = bucket_allow_cost;
  refill = bucket_refill;
}
