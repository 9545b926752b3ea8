-- ===== src/Worker/Run.antt =====
-- internal/worker/pool.go: Run with its workers as a step relation. A worker is idle in its select,
-- busy with a delivery, or has returned; its use case runs between `pick` and `finish`, and what it
-- returned is an input of `finish`. The queue's channel and the two contexts are driven by the
-- environment. A `select` with several ready cases may choose any.
pub mod Drain
pub mod Accounts
pub mod Standing
pub mod Returns
use image_forge.Prelude.{
  ℕ, zero, suc, ◌≡◌, Bool, true, false, Option, none, some, List, [], ◌∷◌, ◌++◌, Text, codes, All,
}
use image_forge.Errors.{shutdown_timeout, Error, sentinel, wrap, Result, ok, err}
use image_forge.Worker.Pool.{outcome_of, Pool, count}

pub data Worker : Type 0 where
  idle : Worker
  busy : Text → Worker
  gone : Worker

-- Where Run stands: in its first select, in its second, in the wait after the timer has fired, or
-- returned.
pub data Phase : Type 0 where
  serving draining expired : Phase
  returned : Option Error → Phase

pub record Shop : Type 0 where
  -- what is in the channel, and all that ever was
  pub deliveries : List Text
  pub arrived : List Text
  pub closed : Bool
  -- the caller's context, and the context of the jobs
  pub canceled : Bool
  pub abandoned : Bool
  pub workers : List Worker
  pub phase : Phase
  pub pool : Pool
  -- the deliveries handled, the latest first
  pub finished : List Text

abbrev replicate : ℕ → List Worker
replicate zero = []
replicate (suc n) = idle ∷ replicate n

-- `Run` after it has started the workers.
unfoldable pub started : Pool → Shop
started pool = record {
  deliveries = [];
  arrived = [];
  closed = false;
  canceled = false;
  abandoned = false;
  workers = replicate pool.size;
  phase = serving;
  pool = pool;
  finished = [];
}

-- `Run` up to there, by the error that `consume` gives, if it does.
unfoldable pub launched : Option Error → Pool → Result Shop
unfolding started
launched (some e) pool = err (wrap (codes "worker: consume: ") e [])
launched none pool = ok (started pool)

-- What the queue and the caller do.
pub data Outside (s : Shop) : Shop → Type 0 where
  arrive :
      (id : Text)
      → s.closed ≡ false
      → Outside s (record s { deliveries = s.deliveries ++ id ∷ []; arrived = id ∷ s.arrived })
  close : Outside s (record s { closed = true })
  cancel : Outside s (record s { canceled = true })

-- What the workers and Run do.
pub data Inside (s : Shop) : Shop → Type 0 where
  -- `work`
  pick :
      (id : Text) (rest : List Text) (before after : List Worker)
      → s.deliveries ≡ id ∷ rest
      → s.workers ≡ before ++ idle ∷ after
      → Inside s (record s { deliveries = rest; workers = before ++ busy id ∷ after })
  finish :
      (id : Text) (result : Option Error) (before after : List Worker)
      → s.workers ≡ before ++ busy id ∷ after
      → Inside s (record s {
        workers = before ++ idle ∷ after;
        pool = count (outcome_of result) s.pool;
        finished = id ∷ s.finished;
      })
  quit_canceled :
      (before after : List Worker)
      → s.canceled ≡ true
      → s.workers ≡ before ++ idle ∷ after
      → Inside s (record s { workers = before ++ gone ∷ after })
  quit_closed :
      (before after : List Worker)
      → s.closed ≡ true
      → s.deliveries ≡ []
      → s.workers ≡ before ++ idle ∷ after
      → Inside s (record s { workers = before ++ gone ∷ after })
  -- `Run`
  stop :
      s.phase ≡ serving
      → All (λ w. w ≡ gone) s.workers
      → Inside s (record s { phase = returned none })
  drain : s.phase ≡ serving → s.canceled ≡ true → Inside s (record s { phase = draining })
  stop_clean :
      s.phase ≡ draining
      → All (λ w. w ≡ gone) s.workers
      → Inside s (record s { phase = returned none })
  time_out : s.phase ≡ draining → Inside s (record s { abandoned = true; phase = expired })
  stop_late :
      s.phase ≡ expired
      → All (λ w. w ≡ gone) s.workers
      → Inside s (record s { phase = returned (some (sentinel shutdown_timeout)) })

pub data Reach (s : Shop) : Shop → Type 0 where
  here : Reach s s
  outside : {t u : Shop} → Reach s t → Outside t u → Reach s u
  inside : {t u : Shop} → Reach s t → Inside t u → Reach s u

-- So many steps of the workers and Run.
pub data Steps (s : Shop) : ℕ → Shop → Type 0 where
  still : Steps s 0 s
  step : {n : ℕ} {t u : Shop} → Steps s n t → Inside t u → Steps s (suc n) u
