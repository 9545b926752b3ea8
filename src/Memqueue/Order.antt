-- ===== src/Memqueue/Order.antt =====
-- What any number of producers and consumers can see of the in-memory queue.
use mathlib.Core.List.{append_assoc}
use image_forge.Prelude.{
  ◌≤◌, ◌<◌, ◌≡◌, refl, sym, ap, ◌∙◌, true, false, Option, none, some, List, [], ◌∷◌, ◌++◌, arith,
  length, length-append, ℤ,
}
use image_forge.Errors.{Error}
use image_forge.Memqueue.{
  Delivery, Queue, new_queue, refusal, Enqueues, refuses, sends, gives_up, close, Takes, takes,
  History, Step, enqueue_ok, enqueue_err, taking, closing, Reach, here, then, start,
}

-- Between two steps: nothing is lost, added or reordered, and the buffer is within its capacity.
pub record IsOrdered (h : History) : Type 0 where
  pub conserved : h.accepted ≡ h.taken ++ h.queue.buffered
  pub within : length h.queue.buffered ≤ h.queue.capacity
  pub positive : 0 < h.queue.capacity

start-IsOrdered : (buffer : ℤ) → IsOrdered (start buffer)
unfolding new_queue
start-IsOrdered buffer = ground arith

Enqueues-none :
    {d : Delivery} {c : Option Error} {q q' : Queue} {r : Option Error}
    → Enqueues d c q q' r
    → r ≡ none
    → (q' ≡ record q { buffered = q.buffered ++ d ∷ [] })
      × (length q.buffered < q.capacity)
      × (q.closed ≡ false)
unfolding refusal
Enqueues-none (refuses e x) h = cc
Enqueues-none (sends x room) h = (refl, room, ground arith)
Enqueues-none (gives_up e x y) h = cc

Enqueues-some :
    {d : Delivery} {c : Option Error} {q q' : Queue} {r : Option Error} (e : Error)
    → Enqueues d c q q' r
    → r ≡ some e
    → q' ≡ q
Enqueues-some e (refuses x y) h = refl
Enqueues-some e (sends x room) h = cc
Enqueues-some e (gives_up x y z) h = refl

Takes-next :
    {q q' : Queue} {d : Delivery}
    → Takes q d q'
    → (rest : List Delivery) × (q.buffered ≡ d ∷ rest) × (q' ≡ record q { buffered = rest })
Takes-next (takes d rest e) = (rest, e, refl)

-- An accepted delivery goes to the end of both lists.
sent-IsOrdered :
    (h : History) (d : Delivery)
    → IsOrdered h
    → length h.queue.buffered < h.queue.capacity
    → IsOrdered (record h {
      queue = record (h.queue) { buffered = h.queue.buffered ++ d ∷ [] };
      accepted = h.accepted ++ d ∷ [];
    })
sent-IsOrdered h d v room = record {
  conserved = rw (v.conserved) (append_assoc h.taken h.queue.buffered (d ∷ []));
  within = omega (arith, length-append h.queue.buffered (d ∷ []));
  positive = v.positive;
}

took-IsOrdered :
    (h : History) (d : Delivery) (rest : List Delivery)
    → IsOrdered h
    → h.queue.buffered ≡ d ∷ rest
    → IsOrdered
        (record h { queue = record (h.queue) { buffered = rest }; taken = h.taken ++ d ∷ [] })
took-IsOrdered h d rest v e = record {
  conserved = v.conserved ∙ rw e (sym (append_assoc h.taken (d ∷ []) rest));
  within = omega (arith, ap length e, v.within);
  positive = v.positive;
}

Step-IsOrdered : {h g : History} → Step h g → IsOrdered h → IsOrdered g
unfolding close
Step-IsOrdered (enqueue_ok h d c q x) v =
    let (e, room, _) = Enqueues-none x refl in rw e (sent-IsOrdered h d v room)
Step-IsOrdered (enqueue_err h d c q e x) v = rw (Enqueues-some e x refl) v
Step-IsOrdered (taking h d q x) v =
    let (rest, e, same) = Takes-next x in rw same (took-IsOrdered h d rest v e)
Step-IsOrdered (closing h) v = record {
  conserved = v.conserved;
  within = v.within;
  positive = v.positive;
}

Reach-keeps : {h g : History} → Reach h g → IsOrdered h → IsOrdered g
Reach-keeps here v = v
Reach-keeps (then r s) v = Step-IsOrdered s (Reach-keeps r v)

-- Whatever producers and consumers do, in any order: what was accepted is what was taken followed
-- by what is buffered, so that each accepted job is taken by one consumer at most, oldest first,
-- and the buffer never exceeds its capacity.
pub Reach-IsOrdered : (buffer : ℤ) {h : History} → Reach (start buffer) h → IsOrdered h
Reach-IsOrdered buffer r = Reach-keeps r (start-IsOrdered buffer)

Step-closed :
    {h g : History}
    → Step h g
    → h.queue.closed ≡ true
    → (g.queue.closed ≡ true) × (g.accepted ≡ h.accepted)
unfolding close
Step-closed (enqueue_ok h d c q x) e =
    let (_, _, open_queue) = Enqueues-none x refl in cc (e, open_queue)
Step-closed (enqueue_err h d c q e' x) e = (rw (Enqueues-some e' x refl) e, refl)
Step-closed (taking h d q x) e = let (rest, _, same) = Takes-next x in (rw same e, refl)
Step-closed (closing h) e = (refl, refl)

-- A closed queue stays closed and accepts nothing more, while consumers drain what it buffered.
Reach-closed :
    {h g : History}
    → Reach h g
    → h.queue.closed ≡ true
    → (g.queue.closed ≡ true) × (g.accepted ≡ h.accepted)
Reach-closed here e = (e, refl)
Reach-closed (then r s) e =
    let (shut, same) = Reach-closed r e in
    let (shut', same') = Step-closed s shut in (shut', same' ∙ same)
