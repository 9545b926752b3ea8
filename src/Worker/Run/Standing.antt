-- ===== src/Worker/Run/Standing.antt =====
-- Where Run stands, against the contexts and the workers.
use image_forge.Worker.Pool.{Pool}
use image_forge.Prelude.{
  ℕ, zero, suc, ◌+◌, ◌≡◌, refl, ap, subst, ◌≢◌, ◌⊎◌, inl, inr, Bool, true, false, none, some, List,
  [], ◌∷◌, ◌++◌, arith, length, length-append, All,
}
use image_forge.Errors.{shutdown_timeout, sentinel}
use image_forge.Worker.Run.{
  Worker, idle, busy, gone, Phase, serving, draining, expired, returned, Shop, replicate, started,
  Outside, arrive, close, cancel, Inside, pick, finish, quit_canceled, quit_closed, stop, drain,
  stop_clean, time_out, stop_late, Reach, here, outside, inside,
}

abbrev pub AllGone : List Worker → Type 0
AllGone ws = All (λ w. w ≡ gone) ws

AllGone-at : (before after : List Worker) (w : Worker) → AllGone (before ++ w ∷ after) → w ≡ gone
AllGone-at [] after w h = h.0
AllGone-at (v ∷ before) after w h = AllGone-at before after w h.1

-- Run's phase against the two contexts and the workers.
abbrev pub Stands : Bool → Bool → List Worker → Phase → Type 0
Stands a c ws serving = a ≡ false
Stands a c ws draining = (a ≡ false) × (c ≡ true)
Stands a c ws expired = (a ≡ true) × (c ≡ true)
Stands a c ws (returned e) =
    AllGone ws
    × (((e ≡ none) × (a ≡ false))
        ⊎ ((e ≡ some (sentinel shutdown_timeout)) × (a ≡ true) × (c ≡ true)))

workers-Stands :
    (a c : Bool) (ws ws' : List Worker) (p : Phase)
    → ¬ AllGone ws
    → Stands a c ws p
    → Stands a c ws' p
workers-Stands a c ws ws' serving n h = h
workers-Stands a c ws ws' draining n h = h
workers-Stands a c ws ws' expired n h = h
workers-Stands a c ws ws' (returned e) n h = absurd (n h.0)

cancel-Stands : (a c : Bool) (ws : List Worker) (p : Phase) → Stands a c ws p → Stands a true ws p
cancel-Stands a c ws serving h = h
cancel-Stands a c ws draining h = (h.0, refl)
cancel-Stands a c ws expired h = (h.0, refl)
cancel-Stands a c ws (returned e) (g, inl h) = (g, inl h)
cancel-Stands a c ws (returned e) (g, inr h) = (g, inr (h.0, h.1, refl))

-- How many workers have returned, and why.
pub gones : List Worker → ℕ
gones [] = 0
gones (gone ∷ ws) = suc (gones ws)
gones (idle ∷ ws) = gones ws
gones (busy id ∷ ws) = gones ws

gones-append : (xs ys : List Worker) → gones (xs ++ ys) ≡ gones xs + gones ys
unfolding gones
gones-append [] ys = omega arith
gones-append (gone ∷ xs) ys = omega (arith, gones-append xs ys)
gones-append (idle ∷ xs) ys = gones-append xs ys
gones-append (busy id ∷ xs) ys = gones-append xs ys

abbrev pub Because : Shop → Type 0
Because s = (gones s.workers ≡ 0) ⊎ (s.canceled ≡ true) ⊎ ((s.closed ≡ true) × (s.deliveries ≡ []))

pub record IsRun (n : ℕ) (s : Shop) : Type 0 where
  pub stands : Stands s.abandoned s.canceled s.workers s.phase
  pub because : Because s
  pub size : length s.workers ≡ n

not-AllGone :
    (ws before after : List Worker) (w : Worker)
    → ws ≡ before ++ w ∷ after
    → w ≢ gone
    → ¬ AllGone ws
not-AllGone ws before after w e n h = n (AllGone-at before after w (subst AllGone e h))

Outside-IsRun : {n : ℕ} {s t : Shop} → Outside s t → IsRun n s → IsRun n t
Outside-IsRun (arrive id c) h = record {
  stands = h.stands;
  because = elim h.because [
    | inl z ↦ inl z
    | inr (inl k) ↦ inr (inl k)
    | inr (inr (k, d)) ↦ absurd (ground arith)
  ];
  size = h.size;
}
Outside-IsRun close h = record {
  stands = h.stands;
  because = elim h.because [
    | inl z ↦ inl z
    | inr (inl k) ↦ inr (inl k)
    | inr (inr (k, d)) ↦ inr (inr (refl, d))
  ];
  size = h.size;
}
Outside-IsRun {s = s} cancel h = record {
  stands = cancel-Stands s.abandoned s.canceled s.workers s.phase h.stands;
  because = inr (inl refl);
  size = h.size;
}

changed-IsRun :
    {n : ℕ} {s : Shop} (before after : List Worker) (w w' : Worker)
    → IsRun n s
    → s.workers ≡ before ++ w ∷ after
    → w ≢ gone
    → Stands s.abandoned s.canceled (before ++ w' ∷ after) s.phase
      × (length (before ++ w' ∷ after) ≡ n)
changed-IsRun {s = s} before after w w' h e k = (
  workers-Stands s.abandoned s.canceled s.workers (before ++ w' ∷ after) s.phase
      (not-AllGone s.workers before after w e k) h.stands,
  omega (
    arith,
    ap length e,
    h.size,
    length-append before (w ∷ after),
    length-append before (w' ∷ after),
  ),
)

pub phase-Stands :
    {n : ℕ} {s : Shop} {p : Phase}
    → IsRun n s
    → s.phase ≡ p
    → Stands s.abandoned s.canceled s.workers p
phase-Stands {s = s} h e = subst (Stands s.abandoned s.canceled s.workers) e h.stands

Inside-IsRun : {n : ℕ} {s t : Shop} → Inside s t → IsRun n s → IsRun n t
unfolding gones
Inside-IsRun (pick id rest before after d w) h =
    let (a, b) = changed-IsRun before after idle (busy id) h w (λ e. ground arith) in
    record {
      stands = a;
      because = elim h.because [
        | inl z ↦ inl (
            omega (
              arith,
              ap gones w,
              gones-append before (idle ∷ after),
              gones-append before (busy id ∷ after),
            ))
        | inr (inl k) ↦ inr (inl k)
        | inr (inr (k, d')) ↦ absurd (ground arith)
      ];
      size = b;
    }
Inside-IsRun (finish id r before after w) h =
    let (a, b) = changed-IsRun before after (busy id) idle h w (λ e. ground arith) in
    record {
      stands = a;
      because = elim h.because [
        | inl z ↦ inl (
            omega (
              arith,
              ap gones w,
              gones-append before (idle ∷ after),
              gones-append before (busy id ∷ after),
            ))
        | inr k ↦ inr k
      ];
      size = b;
    }
Inside-IsRun (quit_canceled before after c w) h =
    let (a, b) = changed-IsRun before after idle gone h w (λ e. ground arith) in
    record { stands = a; because = inr (inl c); size = b }
Inside-IsRun (quit_closed before after c d w) h =
    let (a, b) = changed-IsRun before after idle gone h w (λ e. ground arith) in
    record { stands = a; because = inr (inr (c, d)); size = b }
Inside-IsRun {s = s} (stop p g) h = record {
  stands = (g, inl (refl, phase-Stands h p));
  because = h.because;
  size = h.size;
}
Inside-IsRun {s = s} (drain p c) h = record {
  stands = (phase-Stands h p, c);
  because = h.because;
  size = h.size;
}
Inside-IsRun {s = s} (stop_clean p g) h = record {
  stands = (g, inl (refl, (phase-Stands h p).0));
  because = h.because;
  size = h.size;
}
Inside-IsRun {s = s} (time_out p) h = record {
  stands = (refl, (phase-Stands h p).1);
  because = h.because;
  size = h.size;
}
Inside-IsRun {s = s} (stop_late p g) h = record {
  stands = (g, inr (refl, (phase-Stands h p).0, (phase-Stands h p).1));
  because = h.because;
  size = h.size;
}

replicate-gones : (n : ℕ) → (gones (replicate n) ≡ 0) × (length (replicate n) ≡ n)
unfolding gones
replicate-gones zero = (refl, refl)
replicate-gones (suc n) = let (a, b) = replicate-gones n in (a, ap suc b)

pub Reach-IsRun : (pool : Pool) {t : Shop} → Reach (started pool) t → IsRun pool.size t
unfolding started
Reach-IsRun pool here = record {
  stands = refl;
  because = inl (replicate-gones pool.size).0;
  size = (replicate-gones pool.size).1;
}
Reach-IsRun pool (outside r o) = Outside-IsRun o (Reach-IsRun pool r)
Reach-IsRun pool (inside r i) = Inside-IsRun i (Reach-IsRun pool r)

pub AllGone-gones : (ws : List Worker) → AllGone ws → gones ws ≡ length ws
unfolding gones
AllGone-gones [] h = refl
AllGone-gones (w ∷ ws) h = rw h.0 (ap suc (AllGone-gones ws h.1))
