-- ===== src/Localstorage/Names.antt =====
-- What `clean` makes of names, and of a path below another.
use image_forge.Prelude.{
  ◌≡◌, refl, ◌≢◌, inl, inr, Bool, List, [], ◌∷◌, ◌++◌, arith, Text, text_eq_iff, text_eq, ◌==◌,
  Bool-cases, All,
}
use image_forge.Localstorage.FilePath.{split, dot, dot_dot, push, push_all, rendered}

abbrev pub LacksSlash : Text → Type 0
LacksSlash = All (λ c. c ≢ b'/')

-- A name of a file or a directory.
abbrev pub IsName : Text → Type 0
IsName n = (n ≢ []) × (n ≢ dot) × (n ≢ dot_dot) × LacksSlash n

split-cons : (s : Text) → (w : Text) × (ws : List Text) × (split s ≡ w ∷ ws)
unfolding split
split-cons [] = ([], [], refl)
split-cons (c ∷ s) = elim (Bool-cases (c == b'/')) [
  | inl e ↦ ([], split s, rw e)
  | inr e ↦ let (w, ws, h) = split-cons s in (c ∷ w, ws, rw (e, h))
]

pub split-LacksSlash : (s : Text) → All LacksSlash (split s)
unfolding split
split-LacksSlash [] = (tt, tt)
split-LacksSlash (c ∷ s) =
    let (w, ws, h) = split-cons s in
    let k : All LacksSlash (w ∷ ws) = rw h at (split-LacksSlash s) in
    elim (Bool-cases (c == b'/')) [
      | inl e ↦ rw (e, h) (tt, k)
      | inr e ↦ rw (e, h) (((λ z. ground arith), k.0), k.1)
    ]

pub split-append : (a b : Text) → split (a ++ b'/' ∷ b) ≡ split a ++ split b
unfolding split
split-append [] b = refl
split-append (c ∷ a) b =
    let (w, ws, h) = split-cons a in
    elim (Bool-cases (c == b'/')) [
      | inl e ↦ rw (e, split-append a b)
      | inr e ↦ rw (e, split-append a b, h)
    ]

split-name : (a : Text) → LacksSlash a → split a ≡ a ∷ []
unfolding split
split-name [] h = refl
split-name (c ∷ a) h = ground (arith, split-name a h.1)

pub push_all-append :
    (r : Bool) (st : List Text) (xs ys : List Text)
    → push_all r st (xs ++ ys) ≡ push_all r (push_all r st xs) ys
unfolding push_all
push_all-append r st [] ys = refl
push_all-append r st (x ∷ xs) ys = push_all-append r (push r st x) xs ys

push-name : (r : Bool) (st : List Text) (n : Text) → IsName n → push r st n ≡ n ∷ st
unfolding push
push-name r st n h = ground (arith, text_eq_iff n [], text_eq_iff n dot, text_eq_iff n dot_dot)

-- Walking the names of a stack puts them on the stack.
pub push_all-rendered :
    (r : Bool) (below st : List Text)
    → All IsName st
    → push_all r below (split (rendered st)) ≡ st ++ below
unfolding push_all rendered split push text_eq
push_all-rendered r below [] h = refl
push_all-rendered r below (n ∷ []) h = rw (split-name n h.0.3, push-name r below n h.0)
push_all-rendered r below (n ∷ m ∷ st) h = rw (
  split-append (rendered (m ∷ st)) n,
  push_all-append r below (split (rendered (m ∷ st))) (split n),
  push_all-rendered r below (m ∷ st) h.1,
  split-name n h.0.3,
  push-name r (m ∷ st ++ below) n h.0,
)
