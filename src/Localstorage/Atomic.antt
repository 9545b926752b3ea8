-- ===== src/Localstorage/Atomic.antt =====
-- What others see of a write, and what it leaves.
use image_forge.Localstorage.Renamed.{IsOldOrNew, IsSafe, put_copied-IsSafe}
use image_forge.Prelude.{
  ◌≡◌, refl, ◌≢◌, ◌⊎◌, inl, inr, Option, none, some, arith, Text, text_eq-eq, text_eq_iff, text_eq,
  lookup, if◌then◌else◌, Bool-cases, All,
}
use image_forge.Errors.{Error, Result, ok, err}
use image_forge.Ports.{Bytes}
use image_forge.Localstorage.{
  Files, Answers, resolve, Run, stopped, put_created, put_below, put_resolved, put_data, put_unless,
  put,
}

stopped-IsSafe :
    (fs : Files) (o : Answers) (path : Text) (content : Bytes) (tmp : Text) (e : Error)
    → IsSafe fs o.remove path content tmp (stopped fs e)
stopped-IsSafe fs o path content tmp e = record {
  seen = λ j h. tt;
  wrote = λ q. absurd (ground arith);
  kept = λ e' q m j. refl;
}

module _ (fs : Files) (o : Answers) (key path : Text) (content : Bytes) (tmp : Text)
    (absent : lookup tmp fs ≡ none) (apart : tmp ≢ path) where
  put_created-IsSafe :
      (r : Result Text)
      → ((t : Text) → r ≡ ok t → t ≡ tmp)
      → IsSafe fs o.remove path content tmp (put_created o key path content fs r)
  unfolding put_created
  put_created-IsSafe (err e) h = stopped-IsSafe fs o path content tmp _
  put_created-IsSafe (ok t) h =
      rw (h t refl) (put_copied-IsSafe fs path content tmp o key absent apart o.copy)

  put_below-IsSafe :
      (mkdir : Option Error)
      → o.create_temp ≡ ok tmp
      → IsSafe fs o.remove path content tmp (put_below o key path content fs mkdir)
  unfolding put_below
  put_below-IsSafe (some e) h = stopped-IsSafe fs o path content tmp _
  put_below-IsSafe none h = put_created-IsSafe o.create_temp (λ t q. ground arith)

  put_unless-IsSafe :
      (ctx_err : Option Error) (root : Text)
      → resolve root key ≡ ok path
      → o.create_temp ≡ ok tmp
      → IsSafe fs o.remove path content tmp (put_unless ctx_err root o key (some content) fs)
  unfolding put_unless put_data put_resolved
  put_unless-IsSafe (some e) root p h = stopped-IsSafe fs o path content tmp e
  put_unless-IsSafe none root p h = rw p (put_below-IsSafe o.mkdir_all h)

-- The file at `j` is the one that is written, whole, or as it was.
abbrev pub IsWritten : Files → Text → Bytes → Files → Type 0
IsWritten fs path content s =
    (j : Text) → lookup j s ≡ (if text_eq path j then some content else lookup j fs)

-- A write of `content` to `path` by way of `tmp`: what others see, and what it leaves after success
-- and after an error.
pub record IsAtomic (fs : Files) (remove : Option Error) (path : Text) (content : Bytes)
    (tmp : Text) (r : Run) : Type 0 where
  pub seen : (j : Text) → (tmp ≡ j) ⊎ All (IsOldOrNew fs path content j) r.seen
  pub ended :
      ((r.result ≡ none) × IsWritten fs path content r.left)
      ⊎ ((r.result ≢ none) × ((remove ≢ none) ⊎ ((j : Text) → lookup j r.left ≡ lookup j fs)))

none-or-some {ℓ} : {A : Type ℓ} → (o : Option A) → (o ≡ none) ⊎ ((a : A) × (o ≡ some a))
none-or-some none = inl refl
none-or-some (some a) = inr (a, refl)

IsSafe-IsAtomic :
    (fs : Files) (remove : Option Error) (path : Text) (content : Bytes) (tmp : Text) (r : Run)
    → IsSafe fs remove path content tmp r
    → IsAtomic fs remove path content tmp r
IsSafe-IsAtomic fs remove path content tmp r h = record {
  seen = λ j. elim (Bool-cases (text_eq tmp j)) [
    | inl t ↦ inl (text_eq-eq tmp j t)
    | inr f ↦ inr (h.seen j (λ e. ground (arith, (text_eq_iff tmp j).1 e)))
  ];
  ended = elim (none-or-some r.result) [
    | inl e ↦ inl (e, h.wrote e)
    | inr (e, q) ↦ inr (
      (λ z. ground arith),
      elim (none-or-some remove) [
        | inl m ↦ inr (h.kept e q m)
        | inr (x, m) ↦ inl (λ z. ground arith)
      ],
    )
  ];
}

-- Where CreateTemp gives a name that no file has and that is not the key's own path, `Put` is
-- atomic, whatever the system answers: in each state that others may see, every file but the
-- temporary one is as before, or is the key's with the whole new content; after success the key's
-- file has the content and no other has changed; after an error nothing has changed, provided that
-- the temporary file could be removed.
pub put-IsAtomic :
    (root : Text) (o : Answers) (key path : Text) (content : Bytes) (tmp : Text) (fs : Files)
    → resolve root key ≡ ok path
    → o.create_temp ≡ ok tmp
    → lookup tmp fs ≡ none
    → tmp ≢ path
    → IsAtomic fs o.remove path content tmp (put root o key (some content) fs)
unfolding put
put-IsAtomic root o key path content tmp fs p h absent apart =
    IsSafe-IsAtomic fs o.remove path content tmp _
      (put_unless-IsSafe fs o key path content tmp absent apart o.ctx_err root p h)
