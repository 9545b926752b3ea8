-- ===== src/Metrics/Counted.antt =====
-- What a scrape shows of a pool that the metrics observe.
use image_forge.Prelude.{
  ℕ, ◌+◌, ◌≡◌, refl, sym, ap, ◌∙◌, List, [], ◌∷◌, map, Text, text_eq, if◌then◌else◌,
}
use image_forge.Worker.Pool.{Outcome, processed, failed, skipped, Stats, Pool, u64, count}
use image_forge.Worker.Run.{
  Shop, started, Outside, arrive, close, cancel, Inside, pick, finish, quit_canceled, quit_closed,
  stop, drain, stop_clean, time_out, stop_late, Reach, here, outside, inside,
}
use image_forge.Metrics.{status_label, Collectors, labelled, new_metrics, job_finished}

-- Reading a counter by its label: Prometheus keeps it as an integer of 64 bits. Creating a label and
-- observing a duration leave it alone.
pub record CounterLaws {R : Type 0} (collectors : Collectors R) : Type 0 where
  pub read : Text → R → ℕ
  pub read_fresh : (l : Text) → read l collectors.fresh ≡ 0
  pub read_label : (l k : Text) (r : R) → read l (collectors.with_label k r) ≡ read l r
  pub read_inc :
      (l k : Text) (r : R)
      → read l (collectors.inc k r) ≡ (if text_eq k l then u64 (read l r + 1) else read l r)
  pub read_observe : (l k : Text) (d : ℕ) (r : R) → read l (collectors.observe k d r) ≡ read l r

abbrev pub counter : Outcome → Stats → ℕ
counter processed s = s.processed
counter failed s = s.failed
counter skipped s = s.skipped

-- How a pool counts the observer's calls, the latest first.
counted : List Outcome → Stats
counted [] = record { processed = 0; failed = 0; skipped = 0 }
counted (processed ∷ os) = let s = counted os in record s { processed = u64 (s.processed + 1) }
counted (failed ∷ os) = let s = counted os in record s { failed = u64 (s.failed + 1) }
counted (skipped ∷ os) = let s = counted os in record s { skipped = u64 (s.skipped + 1) }

abbrev IsCounted : Pool → Type 0
IsCounted p = p.stats ≡ counted p.observed

count-IsCounted : (o : Outcome) (p : Pool) → IsCounted p → IsCounted (count o p)
unfolding count counted
count-IsCounted processed p h = rw h refl
count-IsCounted failed p h = rw h refl
count-IsCounted skipped p h = rw h refl

Inside-IsCounted : {s t : Shop} → Inside s t → IsCounted s.pool → IsCounted t.pool
Inside-IsCounted (pick _ _ _ _ _ _) h = h
Inside-IsCounted {s} (finish _ r _ _ _) h = count-IsCounted _ s.pool h
Inside-IsCounted (quit_canceled _ _ _ _) h = h
Inside-IsCounted (quit_closed _ _ _ _ _) h = h
Inside-IsCounted (stop _ _) h = h
Inside-IsCounted (drain _ _) h = h
Inside-IsCounted (stop_clean _ _) h = h
Inside-IsCounted (time_out _) h = h
Inside-IsCounted (stop_late _ _) h = h

Outside-pool : {s t : Shop} → Outside s t → t.pool ≡ s.pool
Outside-pool (arrive _ _) = refl
Outside-pool close = refl
Outside-pool cancel = refl

Reach-IsCounted : {s t : Shop} → Reach s t → IsCounted s.pool → IsCounted t.pool
Reach-IsCounted here h = h
Reach-IsCounted (outside r o) h = rw (Outside-pool o) (Reach-IsCounted r h)
Reach-IsCounted (inside r i) h = Inside-IsCounted i (Reach-IsCounted r h)

counter-none : (o : Outcome) → counter o (counted []) ≡ 0
unfolding counted
counter-none processed = refl
counter-none failed = refl
counter-none skipped = refl

counter-some :
    (o o' : Outcome) (os : List Outcome)
    → counter o (counted (o' ∷ os)) ≡ (
        if text_eq (status_label o') (status_label o)
        then u64 (counter o (counted os) + 1)
        else counter o (counted os))
unfolding counted text_eq
counter-some processed processed os = refl
counter-some processed failed os = refl
counter-some processed skipped os = refl
counter-some failed processed os = refl
counter-some failed failed os = refl
counter-some failed skipped os = refl
counter-some skipped processed os = refl
counter-some skipped failed os = refl
counter-some skipped skipped os = refl

module _ {R : Type 0} (collectors : Collectors R) where
  -- The registry after the calls of `JobFinished`, the latest first, with their durations.
  unfoldable pub scraped : List (Outcome × ℕ) → R
  unfolding job_finished new_metrics
  scraped [] = new_metrics collectors
  scraped ((o, d) ∷ calls) = job_finished collectors o d (scraped calls)

  module _ (laws : CounterLaws collectors) where
    scraped-counted :
        (o : Outcome) (calls : List (Outcome × ℕ))
        → laws.read (status_label o) (scraped calls) ≡ counter o (counted (map (λ c. c.0) calls))
    unfolding scraped job_finished new_metrics labelled
    scraped-counted o [] =
        rw (laws.read_label, laws.read_label, laws.read_label, laws.read_fresh)
          (sym (counter-none o))
    scraped-counted o ((o', d) ∷ calls) =
        rw (laws.read_observe, laws.read_inc, scraped-counted o calls)
          (sym (counter-some o o' (map (λ c. c.0) calls)))

    -- However the workers of a new pool, the queue and the caller interleave: once the metrics have
    -- been told of the outcomes that the pool has reported, with whatever durations, a scrape shows
    -- for each outcome the pool's own counter.
    pub Reach-scraped :
        (pool : Pool)
        → pool.stats ≡ record { processed = 0; failed = 0; skipped = 0 }
        → pool.observed ≡ []
        → {t : Shop} → Reach (started pool) t
        → (calls : List (Outcome × ℕ)) → map (λ c. c.0) calls ≡ t.pool.observed
        → (o : Outcome) → laws.read (status_label o) (scraped calls) ≡ counter o t.pool.stats
    unfolding started counted
    Reach-scraped pool unset unseen {t} r calls e o =
        scraped-counted o calls
        ∙ ap (λ os. counter o (counted os)) e
        ∙ sym (ap (counter o) (Reach-IsCounted r (rw unseen unset)))
