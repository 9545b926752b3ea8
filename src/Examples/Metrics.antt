-- ===== src/Examples/Metrics.antt =====
-- The metrics of a pool of one worker, and deliveries that are forwarded until the context ends.
use image_forge.Prelude.{
  ℕ, ◌+◌, ◌≡◌, refl, true, false, none, some, List, [], ◌∷◌, map, Text, codes, text_eq,
  if◌then◌else◌, pos,
}
use image_forge.Errors.{job_not_pending, sentinel, is}
use image_forge.Worker.Pool.{Outcome, skipped, outcome_of, Pool, u64, count}
use image_forge.Worker.Run.{
  idle, serving, Shop, started, arrive, pick, finish, Reach, here, outside, inside,
}
use image_forge.Metrics.{status_label, Collectors}
use image_forge.Metrics.Counted.{CounterLaws, counter, scraped, Reach-scraped}
use image_forge.Forward.Delivered.{IsForwarded, Reach-IsForwarded}
use image_forge.Memqueue.{Delivery}
use image_forge.Worker.Consume.{bare_delivery}
use image_forge.Forward.{Relay, relay}
use image_forge.Forward

-- A registry of counters by their labels.
abbrev counters : Collectors (Text → ℕ)
counters = record {
  fresh = λ l. 0;
  with_label = λ k r. r;
  inc = λ k r l. if text_eq k l then u64 (r l + 1) else r l;
  observe = λ k d r. r;
  set_depth = λ n r. r;
  inc_errors = λ r. r;
}

abbrev counters_laws : CounterLaws counters
counters_laws = record {
  read = λ l r. r l;
  read_fresh = λ l. refl;
  read_label = λ l k r. refl;
  read_inc = λ l k r. refl;
  read_observe = λ l k d r. refl;
}

abbrev single : Pool
single = record {
  size = 1;
  shutdown_timeout = 30000000000;
  job_timeout = pos 0;
  stats = record { processed = 0; failed = 0; skipped = 0 };
  observed = [];
}

abbrev begun : Shop
begun = record {
  deliveries = [];
  arrived = [];
  closed = false;
  canceled = false;
  abandoned = false;
  workers = idle ∷ [];
  phase = serving;
  pool = single;
  finished = [];
}

abbrev once : Shop
once = record begun {
  arrived = codes "a1" ∷ [];
  pool = count (outcome_of (some (sentinel job_not_pending))) single;
  finished = codes "a1" ∷ [];
}

once_reached : Reach (started single) once
unfolding started
once_reached =
    inside (inside (outside here (arrive (codes "a1") refl)) (pick (codes "a1") [] [] [] refl refl))
      (finish (codes "a1") (some (sentinel job_not_pending)) [] [] refl)

abbrev calls : List (Outcome × ℕ)
calls = (skipped, 250) ∷ []

once_observed : map (λ c. c.0) calls ≡ once.pool.observed
unfolding count outcome_of is
once_observed = refl

Reach-scraped_example :
    counters_laws.read (status_label skipped) (scraped counters calls)
    ≡ counter skipped once.pool.stats
Reach-scraped_example =
    Reach-scraped counters counters_laws single refl refl once_reached calls once_observed skipped

-- Two ids arrive; the first is sent, and the context ends while the second is held.
abbrev given_up : Relay Text Delivery
given_up = record {
  source = [];
  closed = false;
  canceled = true;
  held = none;
  out = bare_delivery (codes "a1") ∷ [];
  stopped = true;
  arrived = codes "a1" ∷ codes "a2" ∷ [];
  dropped = codes "a2" ∷ [];
}

given_up_reached : Forward.Reach bare_delivery false relay given_up
given_up_reached =
    Forward.inside
      (Forward.inside
        (Forward.outside
          (Forward.inside
            (Forward.inside
              (Forward.outside (Forward.outside Forward.here (Forward.arrive (codes "a1") refl))
                (Forward.arrive (codes "a2") refl))
              (Forward.receive (codes "a1") (codes "a2" ∷ []) refl refl refl))
            (Forward.send (codes "a1") refl refl))
          Forward.cancel)
        (Forward.receive (codes "a2") [] refl refl refl))
      (Forward.give_up (codes "a2") refl refl refl)

Reach-IsForwarded_example : IsForwarded bare_delivery given_up
Reach-IsForwarded_example = Reach-IsForwarded bare_delivery false given_up_reached
