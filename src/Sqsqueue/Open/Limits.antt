-- ===== src/Sqsqueue/Open/Limits.antt =====
-- The settings of a queue stay within what SQS allows.
use image_forge.Errors.{Error, new, Result, ok, err}
use image_forge.Sqsqueue.Open.{opened, resolved, new_queue}
use image_forge.Prelude.{
  ◌*◌, ◌≤◌, ◌<◌, ◌≡◌, subst, Bool, true, false, List, [], ◌∷◌, arith, Text, codes, blank, contains,
  if◌then◌else◌, ℤ,
}
use image_forge.Sqsqueue.Queue.{
  Api, Queue, second, with_wait_time, with_visibility_timeout, with_max_messages, with_backoff,
  initial, apply_options,
}

-- An option that the package provides for the numbers it sends to SQS, or the backoff's.
pub data Provided : (Queue → Queue) → Type 0 where
  wait : (d : ℤ) → Provided (with_wait_time d)
  visibility : (d : ℤ) → Provided (with_visibility_timeout d)
  batch : (n : ℤ) → Provided (with_max_messages n)
  backoff : (base ceiling : ℤ) → Provided (with_backoff base ceiling)

pub data AllProvided : List (Queue → Queue) → Type 0 where
  none_given : AllProvided []
  one_more :
      {opt : Queue → Queue} {opts : List (Queue → Queue)}
      → Provided opt
      → AllProvided opts
      → AllProvided (opt ∷ opts)

-- A wait of at most 20 seconds and a batch of one to ten messages, and positive durations.
abbrev pub IsAllowed : Queue → Type 0
IsAllowed q =
    (0 < q.wait_time)
    × (q.wait_time ≤ 20 * second)
    × (0 < q.visibility_timeout)
    × (0 < q.max_messages)
    × (q.max_messages ≤ 10)
    × (0 < q.backoff_base)
    × (0 < q.backoff_max)

initial-IsAllowed : (url : Text) → IsAllowed (initial url)
unfolding initial
initial-IsAllowed url = ground arith

option-IsAllowed :
    {opt : Queue → Queue} (q : Queue) → Provided opt → IsAllowed q → IsAllowed (opt q)
unfolding with_wait_time with_visibility_timeout with_max_messages with_backoff
option-IsAllowed q (wait d) h = ground arith
option-IsAllowed q (visibility d) h = ground arith
option-IsAllowed q (batch d) h = ground arith
option-IsAllowed q (backoff d e) h = ground arith

apply_options-IsAllowed :
    {opts : List (Queue → Queue)} (q : Queue)
    → AllProvided opts
    → IsAllowed q
    → IsAllowed (apply_options opts q)
unfolding apply_options
apply_options-IsAllowed q none_given h = h
apply_options-IsAllowed q (one_more {opt = opt} p ps) h =
    apply_options-IsAllowed (opt q) ps (option-IsAllowed q p h)

module _ {W : Type 0} (client : Api W) where
  opened-IsAllowed :
      (opts : List (Queue → Queue)) (url : Text) (q : Queue)
      → AllProvided opts
      → ◌≡◌ {A = Result Queue} (ok (opened opts url)) (ok q)
      → IsAllowed q
  unfolding opened
  opened-IsAllowed opts url q ps h =
      let e : opened opts url ≡ q = cc in
      subst IsAllowed e (apply_options-IsAllowed (initial url) ps (initial-IsAllowed url))

  resolved-IsAllowed :
      (name : Text) (opts : List (Queue → Queue)) (r : W × Result Text) (q : Queue)
      → AllProvided opts
      → (resolved client name opts r).1 ≡ ok q
      → IsAllowed q
  unfolding resolved opened
  resolved-IsAllowed name opts (w, err e) q ps h = cc
  resolved-IsAllowed name opts (w, ok url) q ps h = opened-IsAllowed opts url q ps h

  branch-IsAllowed :
      (named written : Bool) (e : Error) (name : Text) (opts : List (Queue → Queue))
      → (w : W) (r : W × Result Text) (q : Queue) → AllProvided opts
      → (if named
          then (w, err e)
          else if written
          then (w, ok (opened opts name))
          else resolved client name opts r).1
        ≡ ok q
      → IsAllowed q
  branch-IsAllowed true written e name opts w r q ps h = cc
  branch-IsAllowed false true e name opts w r q ps h = opened-IsAllowed opts name q ps h
  branch-IsAllowed false false e name opts w r q ps h = resolved-IsAllowed name opts r q ps h

  -- Whatever options of the package `New` is given, if it returns a queue, the queue waits at most
  -- 20 seconds and asks for one to ten messages, and its timeout and its backoff are positive.
  new_queue-IsAllowed :
      (name : Text) (opts : List (Queue → Queue)) (w : W) (q : Queue)
      → AllProvided opts
      → (new_queue client name opts w).1 ≡ ok q
      → IsAllowed q
  unfolding new_queue
  new_queue-IsAllowed name opts w q ps h =
      branch-IsAllowed (blank name) (contains (codes "://") name)
        (new (codes "sqsqueue: queue name is empty")) name opts w (client.get_queue_url name w) q ps
        h
