-- ===== src/Worker/Run/Returns.antt =====
-- What Run's result says.
use image_forge.Worker.Run.Standing.{AllGone, IsRun, phase-Stands, Reach-IsRun, AllGone-gones}
use image_forge.Worker.Run.Accounts.{times, held-gone, Reach-Balance}
use image_forge.Worker.Pool.{Pool}
use image_forge.Prelude.{
  ℕ, ◌<◌, ◌≡◌, ap, ◌⊎◌, inl, inr, true, false, Option, none, some, [], arith, Text, Bool-cases, All,
}
use image_forge.Errors.{shutdown_timeout, Error, sentinel}
use image_forge.Worker.Run.{gone, returned, Shop, started, Reach}

drained :
    {n : ℕ} {s : Shop}
    → IsRun n s
    → 0 < n
    → AllGone s.workers
    → s.canceled ≡ false
    → s.deliveries ≡ []
drained {s = s} h p g c = elim h.because [
  | inl z ↦ absurd (omega (arith, AllGone-gones s.workers g, h.size))
  | inr (inl k) ↦ absurd (ground arith)
  | inr (inr (k, d)) ↦ d
]

-- When Run of a pool with workers has returned, every worker has; its result is nil, and then no job
-- was abandoned, or it is ErrShutdownTimeout, and then the jobs were abandoned after the caller had
-- canceled; and the caller has canceled, or each id was handled as often as it had arrived.
pub Reach-returned :
    (pool : Pool) {t : Shop}
    → 0 < pool.size
    → Reach (started pool) t
    → (e : Option Error) → t.phase ≡ returned e
    → All (λ w. w ≡ gone) t.workers
      × (((e ≡ none) × (t.abandoned ≡ false))
          ⊎ ((e ≡ some (sentinel shutdown_timeout)) × (t.abandoned ≡ true) × (t.canceled ≡ true)))
      × ((t.canceled ≡ true) ⊎ ((id : Text) → times id t.arrived ≡ times id t.finished))
unfolding times
Reach-returned pool {t = t} n r e p =
    let h = Reach-IsRun pool r in
    let (g, why) = phase-Stands h p in
    (
      g,
      why,
      elim (Bool-cases t.canceled) [
        | inl c ↦ inl c
        | inr c ↦ inr (λ id. omega (
          arith,
          Reach-Balance pool r id,
          held-gone id t.workers g,
          ap (times id) (drained h n g c),
        ))
      ],
    )
