-- ===== src/Localstorage/Walk.antt =====
-- The stack of names that a relative path leaves.
use mathlib.Core.List.{append_assoc}
use image_forge.Prelude.{
  ℕ, ◌≡◌, refl, ap, ◌≢◌, inl, inr, true, false, ◌||◌, List, [], ◌∷◌, ◌++◌, arith, Text, text_eq-eq,
  text_eq_iff, text_eq, has_prefix, Bool-cases, All,
}
use image_forge.Localstorage.FilePath.{dot, dot_dot, parent, push, push_all, rendered}
use image_forge.Localstorage.Names.{LacksSlash, IsName}

-- A stack that a relative path leaves: below `..` there is only `..`.
abbrev pub IsWalked : List Text → Type 0
IsWalked [] = Unit
IsWalked (n ∷ st) =
    (n ≢ []) × (n ≢ dot) × LacksSlash n × (n ≡ dot_dot → All (λ m. m ≡ dot_dot) st) × IsWalked st

parent-IsWalked : (st : List Text) → IsWalked st → IsWalked (parent false st)
unfolding parent
parent-IsWalked [] h = (
  (λ e. ground arith),
  (λ e. ground arith),
  ((λ e. ground arith), ((λ e. ground arith), tt)),
  (λ e. tt),
  tt,
)
parent-IsWalked (n ∷ st) h = elim (Bool-cases (text_eq n dot_dot)) [
  | inl t ↦
      let e = text_eq-eq n dot_dot t in
      let (up, away) : (All (λ m. m ≡ dot_dot) st) × IsWalked st = (h.3 e, h.4) in
      rw t (
        (λ e. ground arith),
        (λ e. ground arith),
        ((λ e. ground arith), ((λ e. ground arith), tt)),
        (λ _. (e, up)),
        h,
      )
  | inr f ↦ rw f h.4
]

push-IsWalked :
    (st : List Text) (n : Text) → LacksSlash n → IsWalked st → IsWalked (push false st n)
unfolding push
push-IsWalked st n l h = elim (Bool-cases (text_eq n [] || text_eq n dot)) [
  | inl t ↦ rw t h
  | inr f ↦ elim (Bool-cases (text_eq n dot_dot)) [
    | inl u ↦ rw (f, u) (parent-IsWalked st h)
    | inr u ↦
        rw (f, u)
          (
            (λ e. ground (arith, text_eq_iff n [])),
            (λ e. ground (arith, text_eq_iff n dot)),
            l,
            (λ e. absurd (ground (arith, text_eq_iff n dot_dot))),
            h,
          )
  ]
]

pub push_all-IsWalked :
    (st names : List Text) → All LacksSlash names → IsWalked st → IsWalked (push_all false st names)
unfolding push_all
push_all-IsWalked st [] l h = h
push_all-IsWalked st (n ∷ names) l h =
    push_all-IsWalked (push false st n) names l.1 (push-IsWalked st n l.0 h)

pub has_prefix-append : (p a b : Text) → has_prefix p a ≡ true → has_prefix p (a ++ b) ≡ true
unfolding has_prefix
has_prefix-append [] a b h = refl
has_prefix-append (c ∷ p) [] b h = cc
has_prefix-append (c ∷ p) (d ∷ a) b h = ground (arith, has_prefix-append p a b)

pub has_prefix_self : (p b : Text) → has_prefix p (p ++ b) ≡ true
unfolding has_prefix
has_prefix_self [] b = refl
has_prefix_self (c ∷ p) b = ground (arith, has_prefix_self p b)

-- If the names on such a stack do not start with `..`, none of them is `..`.
pub IsWalked-names :
    (st : List Text) → IsWalked st → has_prefix dot_dot (rendered st) ≡ false → All IsName st
unfolding rendered has_prefix
IsWalked-names [] h k = tt
IsWalked-names (n ∷ []) h k =
    ((h.0, h.1, (λ e. ground (arith, ap (has_prefix dot_dot) e)), h.2), tt)
IsWalked-names (n ∷ m ∷ st) h k =
    let above : has_prefix dot_dot (rendered (m ∷ st)) ≡ false =
      ground (arith, has_prefix-append dot_dot (rendered (m ∷ st)) (b'/' ∷ n)) in
    let rest = IsWalked-names (m ∷ st) h.4 above in
    ((h.0, h.1, (λ e. rest.0.2 (h.3 e).0), h.2), rest)

pub rendered-append :
    (a b : List Text) → a ≢ [] → b ≢ [] → rendered (a ++ b) ≡ rendered b ++ b'/' ∷ rendered a
unfolding rendered
rendered-append [] b h k = absurd (h refl)
rendered-append (n ∷ []) [] h k = absurd (k refl)
rendered-append (n ∷ []) (m ∷ b) h k = refl
rendered-append (n ∷ m ∷ a) b h k =
    rw (rendered-append (m ∷ a) b (λ e. cc) k)
      (append_assoc (rendered b) (b'/' ∷ rendered (m ∷ a)) (b'/' ∷ n))

pub rendered-cons :
    (st : List Text) → All IsName st → st ≢ [] → (c : ℕ) × (s : Text) × (rendered st ≡ c ∷ s)
unfolding rendered
rendered-cons [] h k = absurd (k refl)
rendered-cons ([] ∷ []) h k = absurd (h.0.0 refl)
rendered-cons ((c ∷ s) ∷ []) h k = (c, s, refl)
rendered-cons (n ∷ m ∷ st) h k =
    let (c, s, e) = rendered-cons (m ∷ st) h.1 (λ z. cc) in (c, s ++ b'/' ∷ n, rw e)
