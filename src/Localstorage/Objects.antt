-- ===== src/Localstorage/Objects.antt =====
-- What is read after a write.
use image_forge.Prelude.{
  ◌≡◌, refl, ap, ◌≢◌, inl, inr, none, some, Text, text_eq, lookup, if◌then◌else◌, Bool-cases,
}
use image_forge.Errors.{ok}
use image_forge.Ports.{Bytes}
use image_forge.Localstorage.{Files, Answers, resolve, put, opened, got_file, got, got_unless, get}
use image_forge.Localstorage.Atomic.{IsWritten, put-IsAtomic}

-- A read that the system lets through, of a key whose path is known.
get-lookup :
    (root : Text) (o : Answers) (key path : Text) (fs : Files)
    → o.ctx_err ≡ none
    → o.open_file ≡ none
    → resolve root key ≡ ok path
    → get root o key fs ≡ got_file key (opened none (lookup path fs))
unfolding get got_unless got
get-lookup root o key path fs c f p = rw (c, f, p) refl

written-read :
    (fs fs' : Files) (path : Text) (content : Bytes) (key there : Text)
    → IsWritten fs path content fs'
    → got_file key (opened none (lookup there fs'))
      ≡ (if text_eq path there then ok content else got_file key (opened none (lookup there fs)))
unfolding got_file opened
written-read fs fs' path content key there h = elim (Bool-cases (text_eq path there)) [
  | inl t ↦ rw t (ap (λ x. got_file key (opened none x)) (rw t at (h there)))
  | inr f ↦ rw f (ap (λ x. got_file key (opened none x)) (rw f at (h there)))
]

-- After a `Put` that has succeeded, `Get` of any key gives the content that was written where the
-- key names the same path, and what it gave before where it does not, as long as neither the context
-- nor the system gets in its way.
pub get-put :
    (root : Text) (o r : Answers) (key path : Text) (content : Bytes) (tmp : Text) (fs : Files)
    (key' path' : Text)
    → resolve root key ≡ ok path
    → o.create_temp ≡ ok tmp
    → lookup tmp fs ≡ none
    → tmp ≢ path
    → (put root o key (some content) fs).result ≡ none
    → resolve root key' ≡ ok path'
    → r.ctx_err ≡ none
    → r.open_file ≡ none
    → get root r key' (put root o key (some content) fs).left
      ≡ (if text_eq path path' then ok content else get root r key' fs)
get-put root o r key path content tmp fs key' path' p h absent apart done p' c f =
    elim (put-IsAtomic root o key path content tmp fs p h absent apart).ended [
      | inr (n, _) ↦ absurd (n done)
      | inl (_, w) ↦
          rw
            (
              get-lookup root r key' path' fs c f p',
              get-lookup root r key' path' (put root o key (some content) fs).left c f p',
            )
            (written-read fs (put root o key (some content) fs).left path content key' path' w)
    ]
