-- ===== src/Telemetry/Carrier/Travel.antt =====
-- A trace across the queue: injected into a message, sent as its attributes, and extracted again.
use image_forge.Prelude.{
  ◌≡◌, refl, sym, ap, ◌∙◌, fun_ext, ◌≢◌, inl, inr, none, some, List, [], ◌∷◌, arith, Text,
  text_eq_refl, text_eq-eq, text_eq_iff, text_eq, lookup-insert, lookup, insert, Bool-cases,
}
use image_forge.Sqsqueue.Queue.{encode_meta, decode_meta}
use image_forge.Telemetry.Carrier.{Carrier, get, set, Propagator, set_all, inject, extract}

-- No key stands twice, as in a map.
abbrev pub Distinct : Carrier → Type 0
Distinct [] = Unit
Distinct ((key, value) ∷ c) = (lookup key c ≡ none) × Distinct c

insert-Distinct : (key value : Text) (c : Carrier) → Distinct c → Distinct (insert key value c)
unfolding insert lookup
insert-Distinct key value [] d = (refl, tt)
insert-Distinct key value ((j, w) ∷ c) (n, d) = elim (Bool-cases (text_eq j key)) [
  | inl h ↦ rw h (ground (arith, text_eq-eq j key h, n), d)
  | inr h ↦ rw h (
    ground (arith, h, n, lookup-insert key j value c, text_eq_iff key j, text_eq_refl j),
    insert-Distinct key value c d,
  )
]

set_all-Distinct :
    (pairs : List (Text × Text)) (c : Carrier) → Distinct c → Distinct (set_all pairs c)
unfolding set_all set
set_all-Distinct [] c d = d
set_all-Distinct ((key, value) ∷ pairs) c d =
    set_all-Distinct pairs (insert key value c) (insert-Distinct key value c d)

decoded-lookup :
    (c : Carrier) (key : Text)
    → lookup key c ≡ none
    → lookup key (decode_meta (encode_meta c)) ≡ none
unfolding decode_meta encode_meta lookup
decoded-lookup [] key h = refl
decoded-lookup ((j, v) ∷ c) key h = ground (arith, decoded-lookup c key)

decoded-get :
    (c : Carrier) (key : Text) → Distinct c → get (decode_meta (encode_meta c)) key ≡ get c key
unfolding get decode_meta encode_meta lookup
decoded-get [] key d = refl
decoded-get ((j, v) ∷ c) key (n, d) = elim (Bool-cases (text_eq v [])) [
  | inl h ↦ rw h (
      ground (
        arith,
        h,
        text_eq_iff j key,
        text_eq-eq v [] h,
        decoded-lookup c key,
        decoded-get c key d,
        n,
      ))
  | inr h ↦ rw h (ground (arith, decoded-get c key d))
]

get-non_empty : (c : Carrier) (key : Text) → get c key ≢ [] → c ≢ []
unfolding get lookup
get-non_empty [] key h = λ e. h refl
get-non_empty (pair ∷ c) key h = λ e. ground arith

module _ {C : Type 0} (p : Propagator C) where
  inject-some :
      (ctx : C) (c : Carrier) → set_all (p.written ctx) [] ≡ c → c ≢ [] → inject p ctx ≡ some c
  unfolding inject
  inject-some ctx [] e h = ground (arith, h)
  inject-some ctx (pair ∷ c) e h = rw (inject, e) refl

  extract-some :
      (base : C) (c : Carrier) → c ≢ [] → extract p base (some c) ≡ p.extracted base (get c)
  unfolding extract
  extract-some base [] h = ground (arith, h)
  extract-some base (pair ∷ c) h = refl

  -- What the propagator's `Set` calls leave in an empty carrier.
  abbrev pub carried : C → Carrier
  carried ctx = set_all (p.written ctx) []

  -- Where the propagator continues a trace from its own carrier, and that carrier has a value, the
  -- trace reaches the worker: `Inject` gives a carrier, and `Extract` continues the same trace from
  -- what is decoded of the message attributes that it was encoded as.
  pub extract-inject :
      {T : Type 0} (trace : C → T) (ctx base : C) (key : Text)
      → get (carried ctx) key ≢ []
      → trace (p.extracted base (get (carried ctx))) ≡ trace ctx
      → (c : Carrier) × (inject p ctx ≡ some c)
        × (trace (extract p base (some (decode_meta (encode_meta c)))) ≡ trace ctx)
  extract-inject trace ctx base key h continues =
      let c = carried ctx in
      let same : (k : Text) → get (decode_meta (encode_meta c)) k ≡ get c k =
        λ k. decoded-get c k (set_all-Distinct (p.written ctx) [] tt) in
      (
        c,
        inject-some ctx c refl (get-non_empty c key h),
        ap trace (
              extract-some base _ (get-non_empty _ key (λ e. h (sym (same key) ∙ e)))
              ∙ ap (p.extracted base) (fun_ext same))
            ∙ continues,
      )
