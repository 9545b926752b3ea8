-- ===== src/Httpapi/RateLimit.antt =====
-- internal/adapters/httpapi/ratelimit.go. The token bucket of golang.org/x/time/rate is the
-- parameter `Rate`. Instants and spans are nanoseconds; a bucket is a state that a call replaces.
use image_forge.Prelude.{
  ℕ, ◌+◌, ◌-◌, ◌/◌, Bool, true, false, not, ◌&&◌, Option, none, some, List, [], ◌∷◌, Text, lookup,
  insert, ltb, ◌==◌, if◌then◌else◌, length, ℤ, pos, ltb_ℤ,
}

-- `fresh` is `NewLimiter`; `reserve now` takes one token at `now`, and says whether that is
-- possible at all and how long to wait for it; `cancel now` puts the token back.
pub record Rate (L : Type 0) : Type 0 where
  pub fresh : L
  pub reserve : ℕ → L → L × Bool × ℕ
  pub cancel : ℕ → L → L

pub record Bucket (L : Type 0) : Type 0 where
  pub limiter : L
  pub seen : ℕ

pub record Limiter (L : Type 0) : Type 0 where
  -- whether the configured limit and burst are both positive
  pub enabled : Bool
  pub ttl : ℕ
  pub clients : List (Text × Bucket L)

abbrev pub client_ttl : ℕ
client_ttl = 600000000000

abbrev pub nanosecond_second : ℕ
nanosecond_second = 1000000000

abbrev pub positive : ℤ → Bool
positive z = ltb_ℤ (pos 0) z

-- `newRateLimiter` and `enabled`; the limit counts in some fraction of a request per second.
unfoldable pub new_limiter : {L : Type 0} → ℤ → ℤ → Limiter L
new_limiter limit burst = record {
  enabled = positive limit && positive burst;
  ttl = client_ttl;
  clients = [];
}

module _ {L : Type 0} (rate : Rate L) where
  -- The client's bucket, a fresh one for a new client, seen now.
  unfoldable pub touch : ℕ → Option (Bucket L) → Bucket L
  touch now none = record { limiter = rate.fresh; seen = now }
  touch now (some bucket) = record bucket { seen = now }

  -- The decision on a reservation, and the bucket's limiter after it.
  unfoldable pub decide : ℕ → L × Bool × ℕ → L × Bool × ℕ
  decide now (limiter, false, delay) = (limiter, false, nanosecond_second)
  decide now (limiter, true, delay) =
      if delay == 0 then (limiter, true, 0) else (rate.cancel now limiter, false, delay)

  -- `allow`: whether the client may proceed, and how long to wait if not.
  unfoldable pub allow : Text → ℕ → Limiter L → Limiter L × Bool × ℕ
  allow id now l =
      if not l.enabled
      then (l, true, 0)
      else let bucket = touch now (lookup id l.clients) in
        let (limiter, allowed, retry) = decide now (rate.reserve now bucket.limiter) in
        (
          record l { clients = insert id (record bucket { limiter = limiter }) l.clients },
          allowed,
          retry,
        )

-- One round of `sweep`: buckets last seen before `now - ttl` are dropped.
unfoldable pub sweep_clients :
    {L : Type 0} → ℕ → ℕ → List (Text × Bucket L) → List (Text × Bucket L)
sweep_clients ttl now [] = []
sweep_clients ttl now ((id, bucket) ∷ rest) =
    let kept = sweep_clients ttl now rest in
    if ltb (bucket.seen + ttl) now then kept else (id, bucket) ∷ kept

unfoldable pub sweep : {L : Type 0} → ℕ → Limiter L → Limiter L
sweep now l = record l { clients = sweep_clients l.ttl now l.clients }

unfoldable pub tracked : {L : Type 0} → Limiter L → ℕ
tracked l = length l.clients

-- `int(math.Ceil(d.Seconds()))`, one at least. On floats the source computes it exactly up to 2 ^ 22
-- seconds, far above any wait of a bucket that holds a token a second or more.
unfoldable pub retry_seconds : ℕ → ℕ
retry_seconds d =
    let seconds = (d + (nanosecond_second - 1)) / nanosecond_second in
    if ltb seconds 1 then 1 else seconds

-- What the middleware does with a request.
pub data Decision : Type 0 where
  unauthorized proceeds : Decision
  limited : ℕ → Decision

-- The middleware `rateLimit`; no client is a request that no authentication let through.
unfoldable pub rate_limit :
    {L : Type 0} → Rate L → Option Text → ℕ → Limiter L → Limiter L × Decision
rate_limit rate none now l = (l, unauthorized)
rate_limit rate (some id) now l =
    let (l', allowed, retry) = allow rate id now l in
    (l', if allowed then proceeds else limited (retry_seconds retry))
