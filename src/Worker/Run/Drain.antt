-- ===== src/Worker/Run/Drain.antt =====
-- Run comes to an end.
use image_forge.Prelude.{
  ℕ, ◌+◌, ◌*◌, ◌≤◌, ◌<◌, ◌≡◌, refl, ap, ◌⊎◌, inl, inr, true, Option, none, List, [], ◌∷◌, ◌++◌,
  arith, Text, length, All,
}
use image_forge.Errors.{Error}
use image_forge.Worker.Run.{
  Worker, idle, busy, gone, Phase, serving, draining, expired, returned, Shop, Inside, pick, finish,
  quit_canceled, quit_closed, stop, drain, stop_clean, time_out, stop_late, Steps, still, step,
}

weight : Worker → ℕ
weight idle = 1
weight (busy id) = 2
weight gone = 0

weights : List Worker → ℕ
unfolding weight
weights [] = 0
weights (w ∷ ws) = weight w + weights ws

rank : Phase → ℕ
rank serving = 3
rank draining = 2
rank expired = 1
rank (returned e) = 0

-- How much is left to do while nothing arrives.
pub measure : Shop → ℕ
measure s = 3 * length s.deliveries + weights s.workers + rank s.phase

weights-append : (xs ys : List Worker) → weights (xs ++ ys) ≡ weights xs + weights ys
unfolding weights
weights-append [] ys = omega arith
weights-append (w ∷ xs) ys = omega (arith, weights-append xs ys)

Inside-measure : {s t : Shop} → Inside s t → measure t < measure s
unfolding measure weights weight rank
Inside-measure {s} (pick id rest before after d w) = ground (
  arith,
  ap length d,
  ap weights w,
  weights-append before (idle ∷ after),
  weights-append before (busy id ∷ after),
)
Inside-measure {s} (finish id r before after w) = ground (
  arith,
  ap weights w,
  weights-append before (idle ∷ after),
  weights-append before (busy id ∷ after),
)
Inside-measure {s} (quit_canceled before after c w) = ground (
  arith,
  ap weights w,
  weights-append before (idle ∷ after),
  weights-append before (gone ∷ after),
)
Inside-measure {s} (quit_closed before after c d w) = ground (
  arith,
  ap weights w,
  weights-append before (idle ∷ after),
  weights-append before (gone ∷ after),
)
Inside-measure {s} (stop p g) = ground (arith, ap rank p)
Inside-measure {s} (drain p c) = ground (arith, ap rank p)
Inside-measure {s} (stop_clean p g) = ground (arith, ap rank p)
Inside-measure {s} (time_out p) = ground (arith, ap rank p)
Inside-measure {s} (stop_late p g) = ground (arith, ap rank p)

-- Either every worker has returned, or one has not.
data Left (ws : List Worker) : Type 0 where
  none_left : All (λ w. w ≡ gone) ws → Left ws
  idle_left : (before after : List Worker) → ws ≡ before ++ idle ∷ after → Left ws
  busy_left : (id : Text) (before after : List Worker) → ws ≡ before ++ busy id ∷ after → Left ws

left_cons : (w : Worker) (ws : List Worker) → w ≡ gone → Left ws → Left (w ∷ ws)
left_cons w ws e (none_left h) = none_left (e, h)
left_cons w ws e (idle_left before after q) = idle_left (w ∷ before) after (ap (λ z. w ∷ z) q)
left_cons w ws e (busy_left id before after q) = busy_left id (w ∷ before) after (ap (λ z. w ∷ z) q)

left : (ws : List Worker) → Left ws
left [] = none_left tt
left (idle ∷ ws) = idle_left [] ws refl
left (busy id ∷ ws) = busy_left id [] ws refl
left (gone ∷ ws) = left_cons gone ws refl (left ws)

-- Run has returned, or the workers and Run can go on.
abbrev GoesOn : Shop → Type 0
GoesOn s = ((e : Option Error) × (s.phase ≡ returned e)) ⊎ ((t : Shop) × Inside s t)

gone-GoesOn : (s : Shop) (p : Phase) → s.phase ≡ p → All (λ w. w ≡ gone) s.workers → GoesOn s
gone-GoesOn s serving p h = inr (_, stop p h)
gone-GoesOn s draining p h = inr (_, stop_clean p h)
gone-GoesOn s expired p h = inr (_, stop_late p h)
gone-GoesOn s (returned e) p h = inl (e, p)

idle-GoesOn :
    (s : Shop) (ids : List Text) (before after : List Worker)
    → (s.closed ≡ true) ⊎ (s.canceled ≡ true)
    → s.deliveries ≡ ids
    → s.workers ≡ before ++ idle ∷ after
    → GoesOn s
idle-GoesOn s [] before after (inl c) d w = inr (_, quit_closed before after c d w)
idle-GoesOn s (id ∷ ids) before after c d w = inr (_, pick id ids before after d w)
idle-GoesOn s [] before after (inr c) d w = inr (_, quit_canceled before after c w)

left-GoesOn : (s : Shop) → (s.closed ≡ true) ⊎ (s.canceled ≡ true) → Left s.workers → GoesOn s
left-GoesOn s c (none_left h) = gone-GoesOn s s.phase refl h
left-GoesOn s c (idle_left before after w) = idle-GoesOn s s.deliveries before after c refl w
left-GoesOn s c (busy_left id before after w) = inr (_, finish id none before after w)

Inside-stays :
    {s t : Shop}
    → Inside s t
    → (s.closed ≡ true) ⊎ (s.canceled ≡ true)
    → (t.closed ≡ true) ⊎ (t.canceled ≡ true)
Inside-stays (pick id rest before after d w) h = h
Inside-stays (finish id r before after w) h = h
Inside-stays (quit_canceled before after c w) h = h
Inside-stays (quit_closed before after c d w) h = h
Inside-stays (stop p g) h = h
Inside-stays (drain p c) h = h
Inside-stays (stop_clean p g) h = h
Inside-stays (time_out p) h = h
Inside-stays (stop_late p g) h = h

Steps-measure : {s t : Shop} {n : ℕ} → Steps s n t → n + measure t ≤ measure s
Steps-measure still = omega arith
Steps-measure (step r i) = omega (arith, Steps-measure r, Inside-measure i)

Steps-stays :
    {s t : Shop} {n : ℕ}
    → Steps s n t
    → (s.closed ≡ true) ⊎ (s.canceled ≡ true)
    → (t.closed ≡ true) ⊎ (t.canceled ≡ true)
Steps-stays still h = h
Steps-stays (step r i) h = Inside-stays i (Steps-stays r h)

-- Once the queue is closed or the caller's context is canceled, while nothing more arrives and as
-- every use case returns, the workers and Run make, in whatever order, at most as many steps as the
-- measure counts: three for each waiting delivery, one for an idle and two for a busy worker, and up
-- to three for Run. As long as Run has not returned, one of them can make a step, so it returns.
pub Steps-returns :
    {s t : Shop} {n : ℕ}
    → (s.closed ≡ true) ⊎ (s.canceled ≡ true)
    → Steps s n t
    → (n + measure t ≤ measure s)
      × (((e : Option Error) × (t.phase ≡ returned e)) ⊎ ((u : Shop) × Inside t u))
Steps-returns {t = t} h r = (Steps-measure r, left-GoesOn t (Steps-stays r h) (left t.workers))
