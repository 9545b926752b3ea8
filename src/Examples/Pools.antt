-- ===== src/Examples/Pools.antt =====
-- The worker pool at concrete inputs.
use image_forge.Prelude.{
  ◌+◌, ◌≤◌, ◌≡◌, refl, ◌⊎◌, inl, true, false, Option, none, some, [], ◌∷◌, arith, Text, codes, All,
  pos,
}
use image_forge.Errors.{job_not_pending, shutdown_timeout, Error, sentinel}
use image_forge.Worker.Pool.{outcome_of, Pool, count}
use image_forge.Worker.Run.{
  idle, gone, serving, returned, Shop, started, arrive, close, Inside, pick, finish, quit_closed,
  stop, Reach, here, outside, inside, Steps, still, step,
}
use image_forge.Worker.Run.Drain.{measure, Steps-returns}
use image_forge.Worker.Run.Accounts.{times, held, Reach-Balance}
use image_forge.Worker.Run.Returns.{Reach-returned}

-- One worker
abbrev solo : Pool
solo = record {
  size = 1;
  shutdown_timeout = 30000000000;
  job_timeout = pos 0;
  stats = record { processed = 0; failed = 0; skipped = 0 };
  observed = [];
}

abbrev begun : Shop
begun = record {
  deliveries = [];
  arrived = [];
  closed = false;
  canceled = false;
  abandoned = false;
  workers = idle ∷ [];
  phase = serving;
  pool = solo;
  finished = [];
}

-- A delivery, and the end of the queue
abbrev closing : Shop
closing = record begun { deliveries = codes "a1" ∷ []; arrived = codes "a1" ∷ []; closed = true }

abbrev handled : Shop
handled = record closing {
  deliveries = [];
  pool = count (outcome_of (some (sentinel job_not_pending))) solo;
  finished = codes "a1" ∷ [];
}

abbrev over : Shop
over = record handled { workers = gone ∷ []; phase = returned none }

closing_reached : Reach (started solo) closing
unfolding started
closing_reached = outside (outside here (arrive (codes "a1") refl)) close

handled_in : Steps closing 2 handled
handled_in =
    step (step still (pick (codes "a1") [] [] [] refl refl))
      (finish (codes "a1") (some (sentinel job_not_pending)) [] [] refl)

over_reached : Reach (started solo) over
over_reached =
    inside
      (inside
        (inside (inside closing_reached (pick (codes "a1") [] [] [] refl refl))
          (finish (codes "a1") (some (sentinel job_not_pending)) [] [] refl))
        (quit_closed [] [] refl refl refl))
      (stop refl (refl, tt))

Steps-returns_example :
    (2 + measure handled ≤ measure closing)
    × (((e : Option Error) × (handled.phase ≡ returned e)) ⊎ ((u : Shop) × Inside handled u))
Steps-returns_example = Steps-returns (inl refl) handled_in

Reach-Balance_example :
    times (codes "a1") handled.arrived
    ≡ times (codes "a1") handled.deliveries
      + held (codes "a1") handled.workers
      + times (codes "a1") handled.finished
Reach-Balance_example =
    Reach-Balance solo
      (inside (inside closing_reached (pick (codes "a1") [] [] [] refl refl))
        (finish (codes "a1") (some (sentinel job_not_pending)) [] [] refl))
      (codes "a1")

Reach-returned_example :
    All (λ w. w ≡ gone) over.workers
    × (((◌≡◌ {A = Option Error} none none) × (over.abandoned ≡ false))
        ⊎ ((◌≡◌ {A = Option Error} none (some (sentinel shutdown_timeout)))
            × (over.abandoned ≡ true)
            × (over.canceled ≡ true)))
    × ((over.canceled ≡ true) ⊎ ((id : Text) → times id over.arrived ≡ times id over.finished))
Reach-returned_example = Reach-returned solo (omega arith) over_reached none refl
