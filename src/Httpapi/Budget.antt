-- ===== src/Httpapi/Budget.antt =====
-- What a client of the rate limiter meets.
use image_forge.Prelude.{
  ℕ, ◌+◌, ◌*◌, ◌≤◌, ◌<◌, ◌≡◌, refl, ◌≢◌, inl, inr, Bool, true, false, some, List, [], ◌∷◌, arith,
  Text, lookup-insert_ne, lookup, Bool-cases,
}
use image_forge.Httpapi.RateLimit.{
  Rate, Bucket, Limiter, nanosecond_second, decide, allow, sweep_clients, sweep, retry_seconds,
}

module _ {L : Type 0} (rate : Rate L) where
  -- No call for one client touches the bucket of another.
  lookup-allow_other :
      (id j : Text) (now : ℕ) (l : Limiter L)
      → id ≢ j
      → lookup j (allow rate id now l).0.clients ≡ lookup j l.clients
  unfolding allow
  lookup-allow_other id j now l h = elim (Bool-cases l.enabled) [
    | inl e ↦ rw e (lookup-insert_ne id j _ l.clients h)
    | inr e ↦ rw e refl
  ]

  decide-refuses :
      (now : ℕ) (r : L × Bool × ℕ) → (decide rate now r).1 ≡ false → 0 < (decide rate now r).2
  unfolding decide
  decide-refuses now (limiter, false, delay) h = omega arith
  decide-refuses now (limiter, true, delay) h = ground arith

  -- A client is refused by a limiter that is enabled only, and is then told to wait for some time.
  allow-refuses :
      (id : Text) (now : ℕ) (l : Limiter L)
      → (allow rate id now l).1 ≡ false
      → (l.enabled ≡ true) × (0 < (allow rate id now l).2)
  unfolding allow
  allow-refuses id now l h = elim (Bool-cases l.enabled) [
    | inl e ↦ (e, rw e (decide-refuses now _ (rw e at h)))
    | inr e ↦ absurd (let x : ◌≡◌ {A = Bool} true false = rw e at h in cc)
  ]

-- The header never tells a client to come back early, nor more than a second late.
retry_seconds-bounds :
    (d : ℕ)
    → (1 ≤ retry_seconds d)
      × (d ≤ retry_seconds d * nanosecond_second)
      × (retry_seconds d * nanosecond_second ≤ d + nanosecond_second)
unfolding retry_seconds
retry_seconds-bounds d = ground arith

-- Every bucket has been seen within the time to live.
abbrev pub AllRecent : {L : Type 0} → ℕ → ℕ → List (Text × Bucket L) → Type 0
AllRecent ttl now [] = Unit {0}
AllRecent ttl now ((id, bucket) ∷ rest) = (now ≤ bucket.seen + ttl) × AllRecent ttl now rest

sweep_clients-AllRecent :
    {L : Type 0} (ttl now : ℕ) (m : List (Text × Bucket L))
    → AllRecent ttl now (sweep_clients ttl now m)
unfolding sweep_clients
sweep_clients-AllRecent ttl now [] = tt
sweep_clients-AllRecent ttl now ((id, b) ∷ rest) =
    ground (arith, sweep_clients-AllRecent ttl now rest)

lookup-sweep_clients :
    {L : Type 0} (ttl now : ℕ) (id : Text) (b : Bucket L) (m : List (Text × Bucket L))
    → lookup id m ≡ some b
    → now ≤ b.seen + ttl
    → lookup id (sweep_clients ttl now m) ≡ some b
unfolding sweep_clients lookup
lookup-sweep_clients ttl now id b [] e h = cc
lookup-sweep_clients ttl now id b ((j, c) ∷ rest) e h =
    ground (arith, lookup-sweep_clients ttl now id b rest)

-- A sweep leaves no bucket of a client that was not seen within the time to live.
sweep-AllRecent : {L : Type 0} (now : ℕ) (l : Limiter L) → AllRecent l.ttl now (sweep now l).clients
unfolding sweep
sweep-AllRecent now l = sweep_clients-AllRecent l.ttl now l.clients

-- It keeps the bucket of every client that was seen within it.
lookup-sweep :
    {L : Type 0} (now : ℕ) (l : Limiter L) (id : Text) (b : Bucket L)
    → lookup id l.clients ≡ some b
    → now ≤ b.seen + l.ttl
    → lookup id (sweep now l).clients ≡ some b
unfolding sweep
lookup-sweep now l id b = lookup-sweep_clients l.ttl now id b l.clients
