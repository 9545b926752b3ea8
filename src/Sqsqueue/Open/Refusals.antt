-- ===== src/Sqsqueue/Open/Refusals.antt =====
-- Why a queue cannot be opened.
use image_forge.Prelude.{
  ◌≡◌, refl, inl, inr, false, List, arith, Text, codes, blank, contains, Bool-cases,
}
use image_forge.Errors.{Error, Result, ok, err}
use image_forge.Sqsqueue.Queue.{Api, Queue}
use image_forge.Sqsqueue.Open.{resolved, new_queue}

module _ {W : Type 0} (client : Api W) where
  resolved-err :
      (name : Text) (opts : List (Queue → Queue)) (r : W × Result Text) (e : Error)
      → (resolved client name opts r).1 ≡ err e
      → (x : Error) × (r.1 ≡ err x)
  unfolding resolved
  resolved-err name opts (w, err x) e h = (x, refl)
  resolved-err name opts (w, ok url) e h = absurd (ground arith)

  -- `New` of a queue whose name is not blank fails only where the service does not find it.
  pub new_queue-err :
      (name : Text) (opts : List (Queue → Queue)) (w : W) (e : Error)
      → blank name ≡ false
      → (new_queue client name opts w).1 ≡ err e
      → (x : Error) × ((client.get_queue_url name w).1 ≡ err x)
  unfolding new_queue
  new_queue-err name opts w e b h = elim (Bool-cases (contains (codes "://") name)) [
    | inl t ↦ absurd (ground arith)
    | inr f ↦ resolved-err name opts (client.get_queue_url name w) e (ground arith)
  ]
