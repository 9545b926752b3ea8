-- ===== src/Imageproc/Bounds.antt =====
-- The size arithmetic for sizes below 2 ^ 31, where nothing wraps.
use image_forge.Errors.{empty_source, no_target_size, is, Result, ok, err}
use image_forge.Prelude.{
  ℕ, ◌+◌, ◌*◌, ◌/◌, ◌^◌, ◌≤◌, ◌<◌, min, max, ◌≡◌, refl, ◌⊎◌, inl, inr, Bool, true, ◌&&◌, arith, leb,
  if◌then◌else◌, Bool-cases, ℤ, pos, ◌≤ℤ◌,
}
use image_forge.Imageproc.Size.{
  add, mul, at_least_one, scale_dimension, no_source_size, target_size, thumbnail_size,
}

-- Rounding to nearest, on natural numbers.
abbrev pub nearest : ℕ → ℕ → ℕ → ℕ
nearest v r t = (v * t + r / 2) / r

add-small : (a b : ℕ) → a + b < 2 ^ 63 → add (pos a) (pos b) ≡ pos (a + b)
unfolding add
add-small a b h = ground arith

mul-small : (a b : ℕ) → a * b < 2 ^ 63 → mul (pos a) (pos b) ≡ pos (a * b)
unfolding mul
mul-small a b h = ground arith

scale_small :
    (v r t : ℕ)
    → v * t + r / 2 < 2 ^ 63
    → scale_dimension (pos v) (pos r) (pos t) ≡ pos (nearest v r t)
unfolding scale_dimension
scale_small v r t h = rw (mul-small v t (omega arith), add-small (v * t) (r / 2) h) refl

-- A product of sizes below 2 ^ 31 leaves room for the rounding term.
room : (v r t : ℕ) → v < 2 ^ 31 → r < 2 ^ 31 → t < 2 ^ 31 → v * t + r / 2 < 2 ^ 63
room v r t a b c = grind arith

nearest-le : (v r t b : ℕ) → 0 < r → v * t ≤ r * b → nearest v r t ≤ b
nearest-le v r t b p h = grind arith

-- Half a unit of error at most, on either side.
scale_dimension-rounds :
    (v r t : ℕ)
    → 0 < r
    → v < 2 ^ 31
    → r < 2 ^ 31
    → t < 2 ^ 31
    → (n : ℕ) × (scale_dimension (pos v) (pos r) (pos t) ≡ pos n)
      × (2 * (r * n) ≤ 2 * (v * t) + r)
      × (2 * (v * t) ≤ 2 * (r * n) + r)
scale_dimension-rounds v r t p a b c =
    (nearest v r t, scale_small v r t (room v r t a b c), grind arith, grind arith)

at_least_one-pos : (v : ℤ) → pos 1 ≤ℤ at_least_one v
unfolding at_least_one
at_least_one-pos v = ground arith

at_least_one-max : (n : ℕ) → at_least_one (pos n) ≡ pos (max 1 n)
unfolding at_least_one
at_least_one-max n = ground arith

-- The result is never smaller than 1 x 1, whatever the arguments, also where a product wraps.
pub target_size-pos :
    (sw sh ww wh : ℤ) (keep : Bool) {w h : ℤ}
    → target_size sw sh ww wh keep ≡ ok (w, h)
    → (pos 1 ≤ℤ w) × (pos 1 ≤ℤ h)
unfolding target_size
target_size-pos sw sh ww wh keep e = ground (
  arith,
  at_least_one-pos ww,
  at_least_one-pos wh,
  at_least_one-pos (scale_dimension sw sh wh),
  at_least_one-pos (scale_dimension sh sw ww),
)

-- Why a resize fails, and what holds where it does not.
abbrev pub Explains : ℤ → ℤ → ℤ → ℤ → Result (ℤ × ℤ) → Type 0
Explains sw sh ww wh (ok r) = (pos 1 ≤ℤ sw) × (pos 1 ≤ℤ sh) × ((pos 1 ≤ℤ ww) ⊎ (pos 1 ≤ℤ wh))
Explains sw sh ww wh (err e) =
    ((is e empty_source ≡ true) × ((sw ≤ℤ pos 0) ⊎ (sh ≤ℤ pos 0)))
    ⊎ ((is e no_target_size ≡ true) × (ww ≤ℤ pos 0) × (wh ≤ℤ pos 0))

-- It fails exactly on a source without pixels or with no size asked for, by the error of each.
target_size-Explains :
    (sw sh ww wh : ℤ) (keep : Bool) → Explains sw sh ww wh (target_size sw sh ww wh keep)
unfolding target_size no_source_size is
target_size-Explains sw sh ww wh keep = ground arith

-- Sizes that an image or a specification can have: from 1 to 2 ^ 31 - 1.
abbrev pub IsSize : ℕ → Type 0
IsSize n = (0 < n) × (n < 2 ^ 31)

scale_size :
    (v r t : ℕ)
    → IsSize v
    → IsSize r
    → IsSize t
    → at_least_one (scale_dimension (pos v) (pos r) (pos t)) ≡ pos (max 1 (nearest v r t))
scale_size v r t a b c =
    rw (scale_small v r t (room v r t a.1 b.1 c.1)) (at_least_one-max (nearest v r t))

mul_size : (v t : ℕ) → IsSize v → IsSize t → mul (pos v) (pos t) ≡ pos (v * t)
mul_size v t a b = mul-small v t (omega (arith, room v 2 t a.1 (omega arith) b.1))

target_size-kept :
    (sw sh ww wh : ℕ)
    → IsSize sw
    → IsSize sh
    → IsSize ww
    → IsSize wh
    → target_size (pos sw) (pos sh) (pos ww) (pos wh) true ≡ (
        if leb (sw * wh) (sh * ww)
        then ok (pos (max 1 (nearest sw sh wh)), pos wh)
        else ok (pos ww, pos (max 1 (nearest sh sw ww))))
unfolding target_size
target_size-kept sw sh ww wh a b c d = ground (
  arith,
  mul_size sw wh a d,
  mul_size sh ww b c,
  scale_size sw sh wh a b d,
  scale_size sh sw ww b a c,
  at_least_one-max ww,
  at_least_one-max wh,
)

-- With both sides given and the ratio kept, the result fits inside the box, and fills one side.
target_size-fits :
    (sw sh ww wh : ℕ)
    → IsSize sw
    → IsSize sh
    → IsSize ww
    → IsSize wh
    → (w h : ℕ) × (target_size (pos sw) (pos sh) (pos ww) (pos wh) true ≡ ok (pos w, pos h))
      × (w ≤ ww)
      × (h ≤ wh)
      × ((w ≡ ww) ⊎ (h ≡ wh))
target_size-fits sw sh ww wh a b c d = elim (Bool-cases (leb (sw * wh) (sh * ww))) [
  | inl wide ↦
      let le : sw * wh ≤ sh * ww = ground arith in
      (
        max 1 (nearest sw sh wh),
        wh,
        rw (target_size-kept sw sh ww wh a b c d, wide) refl,
        omega (arith, nearest-le sw sh wh ww b.0 le),
        omega arith,
        inr refl,
      )
  | inr tall ↦
      let le : sh * ww ≤ sw * wh = ground arith in
      (
        ww,
        max 1 (nearest sh sw ww),
        rw (target_size-kept sw sh ww wh a b c d, tall) refl,
        omega arith,
        omega (arith, nearest-le sh sw ww wh a.0 le),
        inl refl,
      )
]

-- A thumbnail of an image within the bound is the image; of a larger one its longer side is the
-- bound, and neither side grows.
thumbnail_size-bounds :
    (sw sh m : ℕ)
    → IsSize sw
    → IsSize sh
    → IsSize m
    → (w h : ℕ) × (thumbnail_size (pos sw) (pos sh) (pos m) ≡ ok (pos w, pos h))
      × (w ≤ min sw m)
      × (h ≤ min sh m)
      × (1 ≤ w)
      × (1 ≤ h)
      × (max w h ≡ min m (max sw sh))
unfolding thumbnail_size
thumbnail_size-bounds sw sh m a b c = elim (Bool-cases (leb sw m && leb sh m)) [
  | inl small ↦
      (sw, sh, ground arith, ground arith, ground arith, omega arith, omega arith, ground arith)
  | inr large ↦ elim (Bool-cases (leb sh sw)) [
    | inl wide ↦
        let le : sh ≤ sw = ground arith in
        let big : m < sw = ground arith in
        let fit = nearest-le sh sw m m a.0 (grind arith) in
        let fit' = nearest-le sh sw m sh a.0 (grind arith) in
        (
          m,
          max 1 (nearest sh sw m),
          ground (arith, scale_size sh sw m b a c),
          omega arith,
          omega arith,
          omega arith,
          omega arith,
          omega arith,
        )
    | inr tall ↦
        let le : sw < sh = ground arith in
        let big : m < sh = ground arith in
        let fit = nearest-le sw sh m m b.0 (grind arith) in
        let fit' = nearest-le sw sh m sw b.0 (grind arith) in
        (
          max 1 (nearest sw sh m),
          m,
          ground (arith, scale_size sw sh m a b c),
          omega arith,
          omega arith,
          omega arith,
          omega arith,
          omega arith,
        )
  ]
]
