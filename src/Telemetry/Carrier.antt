-- ===== src/Telemetry/Carrier.antt =====
-- internal/telemetry/propagate.go: the trace that travels with a message. A propagator of
-- OpenTelemetry is a parameter: it writes a carrier by `Set`, and reads one by `Get`.
pub mod Travel
use image_forge.Prelude.{Option, none, some, List, [], ◌∷◌, Text, lookup, insert}

-- `Carrier`
abbrev pub Carrier : Type 0
Carrier = List (Text × Text)

-- `Carrier.Get`
unfoldable pub get : Carrier → Text → Text
unfolding lookup
get c key = elim (lookup key c) [ none ↦ [] | some value ↦ value ]

-- `Carrier.Set`
unfoldable pub set : Text → Text → Carrier → Carrier
unfolding insert
set key value c = insert key value c

-- `Carrier.Keys`
unfoldable pub keys : Carrier → List Text
keys [] = []
keys ((key, value) ∷ c) = key ∷ keys c

-- A propagator: the pairs that it sets, and the context that it makes of what it gets.
pub record Propagator (C : Type 0) : Type 0 where
  pub written : C → List (Text × Text)
  pub extracted : C → (Text → Text) → C

unfoldable pub set_all : List (Text × Text) → Carrier → Carrier
unfolding set
set_all [] c = c
set_all ((key, value) ∷ pairs) c = set_all pairs (set key value c)

module _ {C : Type 0} (p : Propagator C) where
  -- `Inject`; `none` is the nil carrier.
  unfoldable pub inject : C → Option Carrier
  unfolding set_all
  inject ctx = elim (set_all (p.written ctx) []) [ [] ↦ none | pair ∷ c ↦ some (pair ∷ c) ]

  -- `Extract`
  unfoldable pub extract : C → Option Carrier → C
  unfolding get
  extract ctx none = ctx
  extract ctx (some []) = ctx
  extract ctx (some (pair ∷ c)) = p.extracted ctx (get (pair ∷ c))
