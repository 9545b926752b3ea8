-- ===== src/Sqsqueue/Open.antt =====
-- internal/adapters/sqsqueue/sqsqueue.go: `New` and `Depth`, with what they use of `strconv`.
pub mod Limits
pub mod Refusals
use image_forge.Prelude.{
  ℕ, zero, suc, ◌+◌, ◌-◌, ◌*◌, ◌&&◌, Option, none, some, List, [], ◌∷◌, ◌++◌, Text, codes, blank,
  contains, lookup, ltb, leb, ◌==◌, if◌then◌else◌, ℤ, pos, negsuc,
}
use image_forge.Errors.{Error, new, wrap, Result, ok, err}
use image_forge.Domain.Spec.{quote}
use image_forge.Sqsqueue.Queue.{Meta, Api, Queue, initial, apply_options}

max_uint64 : ℕ
max_uint64 = 18446744073709551615

max_int64 : ℕ
max_int64 = 9223372036854775807

num_error : Text → Text → Error
num_error s why = wrap (codes "strconv.Atoi: parsing " ++ quote s ++ codes ": ") (new why) []

-- The digits of `s`, after those that make `n`.
parse_uint : Text → ℕ → Result ℕ
unfolding max_uint64
parse_uint [] n = ok n
parse_uint (c ∷ s) n =
    let n' = n * 10 + (c - b'0') in
    let rest = parse_uint s n' in
    if leb b'0' c && leb c b'9'
    then (if ltb max_uint64 n' then err (new (codes "value out of range")) else rest)
    else err (new (codes "invalid syntax"))

unsigned : Text → Result ℕ
unfolding parse_uint
unsigned [] = err (new (codes "invalid syntax"))
unsigned (c ∷ s) = parse_uint (c ∷ s) 0

positive : Text → Result ℕ → Result ℤ
unfolding num_error max_int64
positive s (err (new why)) = err (num_error s why)
positive s (err e) = err e
positive s (ok n) =
    if ltb max_int64 n then err (num_error s (codes "value out of range")) else ok (pos n)

negate : ℕ → ℤ
negate zero = pos 0
negate (suc n) = negsuc n

negative : Text → Result ℕ → Result ℤ
unfolding num_error max_int64 negate
negative s (err (new why)) = err (num_error s why)
negative s (err e) = err e
negative s (ok n) =
    if ltb (max_int64 + 1) n then err (num_error s (codes "value out of range")) else ok (negate n)

-- `strconv.Atoi` for a 64-bit int.
unfoldable pub atoi : Text → Result ℤ
unfolding unsigned positive negative
atoi [] = positive [] (unsigned [])
atoi (c ∷ s) =
    if c == b'-'
    then negative (c ∷ s) (unsigned s)
    else positive (c ∷ s) (unsigned (if c == b'+' then s else c ∷ s))

opened : List (Queue → Queue) → Text → Queue
opened opts url = apply_options opts (initial url)

module _ {W : Type 0} (client : Api W) where
  resolved : Text → List (Queue → Queue) → W × Result Text → W × Result Queue
  unfolding opened
  resolved name opts (w, err e) =
      (w, err (wrap (codes "sqsqueue: resolve queue " ++ quote name ++ codes ": ") e []))
  resolved name opts (w, ok url) = (w, ok (opened opts url))

  -- `New`, of a client that is not nil.
  unfoldable pub new_queue : Text → List (Queue → Queue) → W → W × Result Queue
  unfolding resolved opened
  new_queue name opts w =
      if blank name
      then (w, err (new (codes "sqsqueue: queue name is empty")))
      else if contains (codes "://") name
      then (w, ok (opened opts name))
      else resolved name opts (client.get_queue_url name w)

  number : Text → Result ℤ → Result ℤ
  number raw (err e) =
      err (wrap (codes "sqsqueue: depth: " ++ quote raw ++ codes " is not a number: ") e [])
  number raw (ok depth) = ok depth

  measured : Option Text → Result ℤ
  unfolding number
  measured none =
      err (new (codes "sqsqueue: depth: ApproximateNumberOfMessages missing from the response"))
  measured (some raw) = number raw (atoi raw)

  attributes_read : W × Result Meta → W × Result ℤ
  unfolding measured
  attributes_read (w, err e) = (w, err (wrap (codes "sqsqueue: depth: ") e []))
  attributes_read (w, ok attributes) =
      (w, measured (lookup (codes "ApproximateNumberOfMessages") attributes))

  -- `Depth`
  unfoldable pub depth : Queue → W → W × Result ℤ
  unfolding attributes_read
  depth q w = attributes_read (client.get_queue_attributes q.queue_url w)
