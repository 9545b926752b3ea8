-- ===== src/Forward.antt =====
-- The goroutines that hand deliveries from one channel on to another: in `consume` of
-- internal/worker/pool.go, in `Consume` of sqsqueue.go and of memqueue.go, and in
-- `ConsumeDeliveries` of memqueue.go. The channel that is read is the list of what it still holds; the
-- one that is written has no buffer, so what is sent is taken.
pub mod Delivered
use image_forge.Prelude.{◌≡◌, Bool, true, false, Option, none, some, List, [], ◌∷◌, ◌++◌}

pub record Relay (A B : Type 0) : Type 0 where
  pub source : List A
  pub closed : Bool
  -- the context of the caller
  pub canceled : Bool
  -- what was received and not yet sent
  pub held : Option A
  pub out : List B
  -- the goroutine has returned and closed its channel
  pub stopped : Bool
  -- all that came into the channel, and what was given up, the oldest first
  pub arrived : List A
  pub dropped : List A

abbrev pub relay : {A B : Type 0} → Relay A B
relay = record {
  source = [];
  closed = false;
  canceled = false;
  held = none;
  out = [];
  stopped = false;
  arrived = [];
  dropped = [];
}

module _ {A B : Type 0} where
  -- What the queue and the caller do.
  pub data Outside (s : Relay A B) : Relay A B → Type 0 where
    arrive :
        (a : A)
        → s.closed ≡ false
        → Outside s (record s { source = s.source ++ a ∷ []; arrived = s.arrived ++ a ∷ [] })
    close : Outside s (record s { closed = true })
    cancel : Outside s (record s { canceled = true })

  -- What the goroutine does, which sends `f a` for `a`; `watches` tells whether it also selects on
  -- the context where it receives.
  pub data Inside (f : A → B) (watches : Bool) (s : Relay A B) : Relay A B → Type 0 where
    receive :
        (a : A) (rest : List A)
        → s.stopped ≡ false
        → s.held ≡ none
        → s.source ≡ a ∷ rest
        → Inside f watches s (record s { source = rest; held = some a })
    send :
        (a : A)
        → s.stopped ≡ false
        → s.held ≡ some a
        → Inside f watches s (record s { held = none; out = s.out ++ f a ∷ [] })
    -- `ctx.Done()` where it sends
    give_up :
        (a : A)
        → s.stopped ≡ false
        → s.held ≡ some a
        → s.canceled ≡ true
        → Inside f watches s
            (record s { held = none; stopped = true; dropped = s.dropped ++ a ∷ [] })
    exhaust :
        s.stopped ≡ false
        → s.held ≡ none
        → s.source ≡ []
        → s.closed ≡ true
        → Inside f watches s (record s { stopped = true })
    leave :
        watches ≡ true
        → s.stopped ≡ false
        → s.held ≡ none
        → s.canceled ≡ true
        → Inside f watches s (record s { stopped = true })

  pub data Reach (f : A → B) (watches : Bool) (s : Relay A B) : Relay A B → Type 0 where
    here : Reach f watches s s
    outside : {t u : Relay A B} → Reach f watches s t → Outside t u → Reach f watches s u
    inside : {t u : Relay A B} → Reach f watches s t → Inside f watches t u → Reach f watches s u
