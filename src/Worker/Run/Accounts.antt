-- ===== src/Worker/Run/Accounts.antt =====
-- No delivery is lost or handled twice.
use image_forge.Prelude.{
  ℕ, zero, suc, ◌+◌, ◌≡◌, refl, ap, List, [], ◌∷◌, ◌++◌, arith, Text, text_eq, if◌then◌else◌, All,
}
use image_forge.Worker.Run.{
  Worker, idle, busy, gone, Shop, replicate, started, Outside, arrive, close, cancel, Inside, pick,
  finish, quit_canceled, quit_closed, stop, drain, stop_clean, time_out, stop_late, Reach, here,
  outside, inside,
}
use image_forge.Worker.Pool.{Pool}

-- How often an id stands in a list.
unfoldable pub times : Text → List Text → ℕ
times id [] = 0
times id (j ∷ js) = (if text_eq j id then 1 else 0) + times id js

-- How many workers are busy with an id.
unfoldable pub held : Text → List Worker → ℕ
held id [] = 0
held id (idle ∷ ws) = held id ws
held id (gone ∷ ws) = held id ws
held id (busy j ∷ ws) = (if text_eq j id then 1 else 0) + held id ws

times-append : (id : Text) (xs ys : List Text) → times id (xs ++ ys) ≡ times id xs + times id ys
unfolding times
times-append id [] ys = omega arith
times-append id (x ∷ xs) ys = omega (arith, times-append id xs ys)

held-append : (id : Text) (xs ys : List Worker) → held id (xs ++ ys) ≡ held id xs + held id ys
unfolding held
held-append id [] ys = omega arith
held-append id (idle ∷ xs) ys = held-append id xs ys
held-append id (gone ∷ xs) ys = held-append id xs ys
held-append id (busy j ∷ xs) ys = omega (arith, held-append id xs ys)

pub held-gone : (id : Text) (ws : List Worker) → All (λ w. w ≡ gone) ws → held id ws ≡ 0
unfolding held
held-gone id [] h = refl
held-gone id (w ∷ ws) h = rw h.0 (held-gone id ws h.1)

abbrev Balance : Shop → Text → Type 0
Balance s id = times id s.arrived ≡ times id s.deliveries + held id s.workers + times id s.finished

Outside-Balance : {s t : Shop} (id : Text) → Outside s t → Balance s id → Balance t id
unfolding times
Outside-Balance {s} id (arrive j c) h = omega (arith, times-append id s.deliveries (j ∷ []))
Outside-Balance id close h = h
Outside-Balance id cancel h = h

Inside-Balance : {s t : Shop} (id : Text) → Inside s t → Balance s id → Balance t id
unfolding times held
Inside-Balance id (pick j rest before after d w) h = omega (
  arith,
  ap (times id) d,
  ap (held id) w,
  held-append id before (idle ∷ after),
  held-append id before (busy j ∷ after),
)
Inside-Balance id (finish j r before after w) h = omega (
  arith,
  ap (held id) w,
  held-append id before (idle ∷ after),
  held-append id before (busy j ∷ after),
)
Inside-Balance id (quit_canceled before after c w) h = omega (
  arith,
  ap (held id) w,
  held-append id before (idle ∷ after),
  held-append id before (gone ∷ after),
)
Inside-Balance id (quit_closed before after c d w) h = omega (
  arith,
  ap (held id) w,
  held-append id before (idle ∷ after),
  held-append id before (gone ∷ after),
)
Inside-Balance id (stop p g) h = h
Inside-Balance id (drain p c) h = h
Inside-Balance id (stop_clean p g) h = h
Inside-Balance id (time_out p) h = h
Inside-Balance id (stop_late p g) h = h

started-held : (id : Text) (n : ℕ) → held id (replicate n) ≡ 0
unfolding held
started-held id zero = refl
started-held id (suc n) = started-held id n

-- However the workers, the queue and the caller interleave, each id has arrived exactly as often as
-- it waits in the channel, is being worked on and has been handled together: no delivery is lost,
-- and none is handled twice.
pub Reach-Balance :
    (pool : Pool) {t : Shop}
    → Reach (started pool) t
    → (id : Text)
    → times id t.arrived ≡ times id t.deliveries + held id t.workers + times id t.finished
unfolding started times
Reach-Balance pool here id = omega (arith, started-held id pool.size)
Reach-Balance pool (outside r o) id = Outside-Balance id o (Reach-Balance pool r id)
Reach-Balance pool (inside r i) id = Inside-Balance id i (Reach-Balance pool r id)
