-- ===== src/Localstorage/Slash.antt =====
-- The file system's own root as the root directory of the storage.
use mathlib.Core.List.{append-nil}
use image_forge.Prelude.{
  ◌≡◌, ap, ◌∙◌, ◌≢◌, inl, inr, true, false, ◌||◌, List, [], ◌∷◌, ◌++◌, arith, Text, text_eq,
  has_prefix, All,
}
use image_forge.Errors.{invalid_key, Error, is, ok, err, Result-cases}
use image_forge.Localstorage.{resolve}
use image_forge.Localstorage.FilePath.{split, push, push_all, rendered, is_abs, join_path}
use image_forge.Localstorage.Names.{IsName, push_all-rendered}
use image_forge.Localstorage.Walk.{rendered-cons}
use image_forge.Localstorage.Confined.{join_path-slash, clean-names, resolve_ok, is_abs-rendered}

resolve-err : (root key : Text) (e : Error) → resolve root key ≡ err e → is e invalid_key ≡ true
unfolding resolve is
resolve-err root key e h = ground arith

resolve_under :
    (root key path : Text)
    → resolve root key ≡ ok path
    → (text_eq path root || has_prefix (root ++ b'/' ∷ []) path) ≡ true
unfolding resolve
resolve_under root key path h = ground arith

join_path-root :
    (st : List Text)
    → All IsName st
    → st ≢ []
    → join_path (b'/' ∷ []) (rendered st) ≡ b'/' ∷ rendered st
unfolding push_all push split text_eq
join_path-root st h k =
    let (c, s, e) = rendered-cons st h k in
    let step : join_path (b'/' ∷ []) (rendered st)
        ≡ b'/' ∷ rendered (push_all true [] (split (b'/' ∷ rendered st))) =
      rw e (join_path-slash [] c s) in
    step ∙ ap (λ z. b'/' ∷ rendered z) (push_all-rendered true [] st h ∙ append-nil st)

not-below :
    (st : List Text)
    → All IsName st
    → st ≢ []
    → (text_eq (b'/' ∷ rendered st) (b'/' ∷ [])
        || has_prefix (b'/' ∷ b'/' ∷ []) (b'/' ∷ rendered st))
      ≡ false
unfolding text_eq has_prefix is_abs
not-below st h k =
    let (c, s, e) = rendered-cons st h k in
    let away = is_abs-rendered st h k in
    let away' : is_abs (c ∷ s) ≡ false = rw e at away in rw e (ground arith)

-- A storage whose root is the file system's own refuses every key, as one that escapes it.
pub resolve-refuses :
    (key : Text) → (e : Error) × (resolve (b'/' ∷ []) key ≡ err e) × (is e invalid_key ≡ true)
resolve-refuses key = elim (Result-cases (resolve (b'/' ∷ []) key)) [
  | inr (e, h) ↦ (e, h, resolve-err (b'/' ∷ []) key e h)
  | inl (path, h) ↦
      let (a, d, p, e) = resolve_ok (b'/' ∷ []) key path h in
      let (names, are, some_names, q) = clean-names key a d p in
      let at_root : path ≡ b'/' ∷ rendered names =
        e ∙ ap (join_path (b'/' ∷ [])) q ∙ join_path-root names are some_names in
      let u = resolve_under (b'/' ∷ []) key path h in
      let n = not-below names are some_names in absurd (ground (arith, rw at_root at u))
]
