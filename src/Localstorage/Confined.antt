-- ===== src/Localstorage/Confined.antt =====
-- Where the paths of keys lie.
use image_forge.Localstorage.Walk.{
  IsWalked, push_all-IsWalked, has_prefix_self, IsWalked-names, rendered-append, rendered-cons,
}
use image_forge.Errors.{ok}
use image_forge.Localstorage.{resolve}
use mathlib.Core.List.{append_assoc, append-nil}
use image_forge.Prelude.{
  ℕ, ◌≡◌, refl, sym, ap, ◌∙◌, ◌≢◌, inl, inr, true, false, List, [], ◌∷◌, ◌++◌, arith, Text,
  text_eq_iff, text_eq, has_prefix, blank, contains, Bool-cases, length, length-append, All,
}
use image_forge.Localstorage.FilePath.{
  split, dot, dot_dot, push, push_all, rendered, is_abs, named, clean, join_path,
}
use image_forge.Localstorage.Names.{
  IsName, split-LacksSlash, split-append, push_all-append, push_all-rendered,
}

-- A root directory that is not the file system's own, as `Abs` gives it.
pub record IsRoot (root : Text) : Type 0 where
  pub names : List Text
  pub are_names : All IsName names
  pub some_names : names ≢ []
  pub path : root ≡ b'/' ∷ rendered names

pub join_path-slash :
    (t : Text) (c : ℕ) (s : Text)
    → join_path (b'/' ∷ t) (c ∷ s) ≡ b'/' ∷ rendered (push_all true [] (split (t ++ b'/' ∷ c ∷ s)))
unfolding join_path clean is_abs has_prefix split push_all push text_eq
join_path-slash t c s = refl

-- Names below a root are joined to it with a slash.
join_path-below :
    (root : Text) (st : List Text)
    → IsRoot root
    → All IsName st
    → st ≢ []
    → join_path root (rendered st) ≡ root ++ b'/' ∷ rendered st
join_path-below root st r h k =
    let (c, s, e) = rendered-cons st h k in
    let t = rendered r.names in
    let joined : push_all true [] (split (t ++ b'/' ∷ rendered st)) ≡ st ++ r.names = rw (
      split-append t (rendered st),
      push_all-append true [] (split t) (split (rendered st)),
      push_all-rendered true [] r.names r.are_names,
      append-nil r.names,
      push_all-rendered true r.names st h,
    ) in
    let step : join_path (b'/' ∷ t) (rendered st)
        ≡ b'/' ∷ rendered (push_all true [] (split (t ++ b'/' ∷ rendered st))) =
      rw e (join_path-slash t c s) in
    ap (λ z. join_path z (rendered st)) r.path
    ∙ step
    ∙ ap (λ z. b'/' ∷ rendered z) joined
    ∙ ap (λ z. b'/' ∷ z) (rendered-append st r.names k r.some_names)
    ∙ sym (ap (λ z. z ++ b'/' ∷ rendered st) r.path)

named-names :
    (st : List Text)
    → IsWalked st
    → text_eq (named st) dot ≡ false
    → has_prefix dot_dot (named st) ≡ false
    → (names : List Text) × All IsName names × (names ≢ []) × (named st ≡ rendered names)
unfolding named text_eq
named-names [] w d p = cc
named-names (n ∷ st) w d p = (n ∷ st, IsWalked-names (n ∷ st) w p, (λ e. cc), refl)

pub clean-names :
    (key : Text)
    → is_abs (clean key) ≡ false
    → text_eq (clean key) dot ≡ false
    → has_prefix dot_dot (clean key) ≡ false
    → (st : List Text) × All IsName st × (st ≢ []) × (clean key ≡ rendered st)
unfolding clean is_abs has_prefix
clean-names key a d p = elim (Bool-cases (has_prefix (b'/' ∷ []) key)) [
  | inl t ↦ absurd (ground arith)
  | inr f ↦
      let st = push_all false [] (split key) in
      let e : clean key ≡ named st = rw f in
      let w = push_all-IsWalked [] (split key) (split-LacksSlash key) tt in
      let (names, h, k, q) =
        named-names st w (ap (λ z. text_eq z dot) (sym e) ∙ d)
          (ap (has_prefix dot_dot) (sym e) ∙ p) in
      (names, h, k, e ∙ q)
]

pub resolve_ok :
    (root key path : Text)
    → resolve root key ≡ ok path
    → (is_abs (clean key) ≡ false)
      × (text_eq (clean key) dot ≡ false)
      × (has_prefix dot_dot (clean key) ≡ false)
      × (path ≡ join_path root (clean key))
unfolding resolve
resolve_ok root key path h = ground arith

-- A path that `resolve` returns is below the root: the root, then one or more names that are neither
-- empty nor `.` nor `..` and hold no slash, the names of the cleaned key.
pub resolve-IsBelow :
    (root key path : Text)
    → IsRoot root
    → resolve root key ≡ ok path
    → (names : List Text) × All IsName names
      × (names ≢ [])
      × (clean key ≡ rendered names)
      × (path ≡ root ++ b'/' ∷ rendered names)
resolve-IsBelow root key path r h =
    let (a, d, p, e) = resolve_ok root key path h in
    let (names, are, some_names, q) = clean-names key a d p in
    (
      names,
      are,
      some_names,
      q,
      e ∙ ap (join_path root) q ∙ join_path-below root names r are some_names,
    )

pub is_abs-rendered : (st : List Text) → All IsName st → st ≢ [] → is_abs (rendered st) ≡ false
unfolding is_abs has_prefix rendered
is_abs-rendered [] h k = absurd (k refl)
is_abs-rendered ([] ∷ []) h k = absurd (h.0.0 refl)
is_abs-rendered ((c ∷ s) ∷ []) h k = ground arith
is_abs-rendered (n ∷ m ∷ st) h k =
    let (c, s, e) = rendered-cons (m ∷ st) h.1 (λ z. cc) in
    let ih = is_abs-rendered (m ∷ st) h.1 (λ z. cc) in
    let ih' : is_abs (c ∷ s) ≡ false = rw e at ih in rw e ih'

clean-rendered : (st : List Text) → All IsName st → st ≢ [] → clean (rendered st) ≡ rendered st
unfolding clean
clean-rendered [] h k = absurd (k refl)
clean-rendered (n ∷ st) h k =
    rw (is_abs-rendered (n ∷ st) h k, push_all-rendered false [] (n ∷ st) h, append-nil st)

rendered-ne-dot : (st : List Text) → All IsName st → rendered st ≢ dot
unfolding rendered
rendered-ne-dot [] h e = ground arith
rendered-ne-dot (n ∷ []) h e = h.0.1 e
rendered-ne-dot (n ∷ m ∷ st) h e =
    let (c, s, q) = rendered-cons (m ∷ st) h.1 (λ z. cc) in
    let long = length-append (rendered (m ∷ st)) (b'/' ∷ n) in
    omega (arith, ap length e, ap length q, long)

resolve_accepts :
    (root key : Text)
    → blank key ≡ false
    → contains (0 ∷ []) key ≡ false
    → is_abs (clean key) ≡ false
    → text_eq (clean key) dot ≡ false
    → has_prefix dot_dot (clean key) ≡ false
    → has_prefix (root ++ b'/' ∷ []) (join_path root (clean key)) ≡ true
    → resolve root key ≡ ok (join_path root (clean key))
unfolding resolve
resolve_accepts root key b z a d p u = ground arith

-- Names with slashes between them, of which the first does not start with `..`, are a key that is
-- stored below the root at those names, unless they are blank or hold a null byte.
resolve-rendered :
    (root : Text) (names : List Text)
    → IsRoot root
    → All IsName names
    → names ≢ []
    → blank (rendered names) ≡ false
    → contains (0 ∷ []) (rendered names) ≡ false
    → has_prefix dot_dot (rendered names) ≡ false
    → resolve root (rendered names) ≡ ok (root ++ b'/' ∷ rendered names)
resolve-rendered root names r are some_names b z p =
    let key = rendered names in
    let e = clean-rendered names are some_names in
    let below : join_path root (clean key) ≡ root ++ b'/' ∷ key =
      ap (join_path root) e ∙ join_path-below root names r are some_names in
    let under : has_prefix (root ++ b'/' ∷ []) (join_path root (clean key)) ≡ true =
      ap (has_prefix (root ++ b'/' ∷ [])) (below ∙ sym (append_assoc root (b'/' ∷ []) key))
      ∙ has_prefix_self (root ++ b'/' ∷ []) key in
    resolve_accepts root key b z (ap is_abs e ∙ is_abs-rendered names are some_names)
      (ap (λ q. text_eq q dot) e ∙ ground (arith, text_eq_iff key dot, rendered-ne-dot names are))
      (ap (has_prefix dot_dot) e ∙ p) under
    ∙ ap ok below
