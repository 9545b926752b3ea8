-- ===== src/Sqsqueue/Backoff.antt =====
-- internal/adapters/sqsqueue/backoff.go. Durations are nanoseconds. `2 ^ shift` times the base is
-- computed there on floats, which is exact here: the shift is at most 32, a product below 2 ^ 53
-- is exact, and a larger one is far above any ceiling below 2 ^ 53 nanoseconds (104 days).
use native.Mathlib.Nat.{pow-suc}
use image_forge.Prelude.{
  ℕ, zero, suc, ◌+◌, ◌*◌, ◌^◌, ◌<◌, min, List, [], ◌∷◌, arith, ◌==◌, if◌then◌else◌,
}

abbrev pub default_backoff_base : ℕ
default_backoff_base = 250000000

abbrev pub default_backoff_max : ℕ
default_backoff_max = 30000000000

-- `random n` draws from [0, n): `rand.Int64N`.
pub record Backoff : Type 0 where
  pub base : ℕ
  pub ceiling : ℕ
  pub attempt : ℕ

unfoldable pub new_backoff : ℕ → ℕ → Backoff
new_backoff base ceiling = record { base = base; ceiling = ceiling; attempt = 0 }

unfoldable pub capped : Backoff → ℕ
capped b = min (b.base * 2 ^ min b.attempt 32) b.ceiling

-- The delay before the next attempt, and the failure counted.
unfoldable pub next : (ℕ → ℕ) → Backoff → Backoff × ℕ
unfolding capped
next random b =
    let d = random (capped b) in
    (record b { attempt = b.attempt + 1 }, if capped b == 0 then 0 else d)

unfoldable pub reset : Backoff → Backoff
reset b = record b { attempt = 0 }

unfoldable pub attempts : Backoff → ℕ
attempts b = b.attempt

-- The delays of a run of failed receives, the first one first. `random k` is the draw at the
-- attempt `k`.
unfoldable pub delays : (ℕ → ℕ → ℕ) → Backoff → ℕ → List ℕ
delays random b zero = []
delays random b (suc n) = let (b', d) = next (random b.attempt) b in d ∷ delays random b' n

-- The k-th delay of a run is below the ceiling, and below the base doubled k times, 32 at most.
abbrev pub Below : ℕ → ℕ → ℕ → List ℕ → Type 0
Below base ceiling k [] = Unit {0}
Below base ceiling k (d ∷ ds) =
    (d < ceiling) × (d < base * 2 ^ min k 32) × Below base ceiling (k + 1) ds

pow_pos : (k : ℕ) → 0 < 2 ^ k
pow_pos zero = omega arith
pow_pos (suc k) = omega (arith, pow_pos k, pow-suc 2 k)

module _ (random : ℕ → ℕ → ℕ) (draws : (k n : ℕ) → 0 < n → random k n < n) where
  next_bound :
      (b : Backoff)
      → 0 < b.base
      → 0 < b.ceiling
      → let d = (next (random b.attempt) b).1 in
        (d < b.ceiling) × (d < b.base * 2 ^ min b.attempt 32)
  unfolding next
  next_bound b p q =
      let some_time : 0 < b.base * 2 ^ min b.attempt 32 =
        grind (arith, pow_pos (min b.attempt 32)) in
      ground (arith, draws b.attempt (capped b))

  -- However long the queue is down, every delay is below the ceiling and below the doubled base.
  pub delays-Below :
      (b : Backoff) (n : ℕ)
      → 0 < b.base
      → 0 < b.ceiling
      → Below b.base b.ceiling b.attempt (delays random b n)
  unfolding delays next
  delays-Below b zero p q = tt
  delays-Below b (suc n) p q =
      let (low, high) = next_bound b p q in
      (low, high, delays-Below (next (random b.attempt) b).0 n p q)
