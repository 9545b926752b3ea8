-- ===== src/Imageproc/Size.antt =====
-- internal/adapters/imageproc/imageproc.go: the size arithmetic, on 64-bit ints. Products and sums
-- wrap around, and `/` rounds towards zero, as in Go.
use image_forge.Prelude.{
  suc, ◌+◌, ◌-◌, ◌*◌, ◌/◌, ◌%◌, ◌^◌, Bool, not, ◌&&◌, ◌||◌, [], ◌++◌, Text, codes, decimal_int, ltb,
  if◌then◌else◌, ℤ, pos, negsuc, pos_part, neg_part, sub_ℕ, ltb_ℤ, leb_ℤ,
}
use image_forge.Errors.{
  empty_source, no_target_size, invalid_max_dimension, Error, sentinel, wrap, Result, ok, err,
}

-- The 64-bit pattern of an integer read back as a signed number.
abbrev pub int64 : ℤ → ℤ
int64 (pos n) = if ltb (n % 2 ^ 64) (2 ^ 63) then pos (n % 2 ^ 64) else sub_ℕ (n % 2 ^ 64) (2 ^ 64)
int64 (negsuc n) =
    if ltb (n % 2 ^ 64) (2 ^ 63) then negsuc (n % 2 ^ 64) else pos (2 ^ 64 - 1 - n % 2 ^ 64)

unfoldable pub add : ℤ → ℤ → ℤ
add a b = int64 (sub_ℕ (pos_part a + pos_part b) (neg_part a + neg_part b))

unfoldable pub mul : ℤ → ℤ → ℤ
mul a b = int64 (
    sub_ℕ (pos_part a * pos_part b + neg_part a * neg_part b)
      (pos_part a * neg_part b + neg_part a * pos_part b))

-- Division towards zero; the callers divide by a positive number only.
abbrev pub quot : ℤ → ℤ → ℤ
quot (pos a) (pos b) = pos (a / b)
quot (pos a) (negsuc b) = sub_ℕ 0 (a / suc b)
quot (negsuc a) (pos b) = sub_ℕ 0 (suc a / b)
quot (negsuc a) (negsuc b) = int64 (pos (suc a / suc b))

unfoldable pub at_least_one : ℤ → ℤ
at_least_one v = if ltb_ℤ v (pos 1) then pos 1 else v

unfoldable pub scale_dimension : ℤ → ℤ → ℤ → ℤ
scale_dimension value reference target =
    quot (add (mul value target) (quot reference (pos 2))) reference

abbrev pub size_text : ℤ → ℤ → Text
size_text w h = decimal_int w ++ codes "x" ++ decimal_int h

unfoldable pub no_source_size : ℤ → ℤ → Error
no_source_size w h = wrap [] (sentinel empty_source) (codes ": source is " ++ size_text w h)

unfoldable pub target_size : ℤ → ℤ → ℤ → ℤ → Bool → Result (ℤ × ℤ)
target_size src_w src_h want_w want_h keep_aspect =
    if leb_ℤ src_w (pos 0) || leb_ℤ src_h (pos 0)
    then err (no_source_size src_w src_h)
    else if leb_ℤ want_w (pos 0) && leb_ℤ want_h (pos 0)
    then err (sentinel no_target_size)
    else if leb_ℤ want_w (pos 0)
    then ok (at_least_one (scale_dimension src_w src_h want_h), at_least_one want_h)
    else if leb_ℤ want_h (pos 0)
    then ok (at_least_one want_w, at_least_one (scale_dimension src_h src_w want_w))
    else if not keep_aspect
    then ok (at_least_one want_w, at_least_one want_h)
    else if leb_ℤ (mul src_w want_h) (mul src_h want_w)
    then ok (at_least_one (scale_dimension src_w src_h want_h), at_least_one want_h)
    else ok (at_least_one want_w, at_least_one (scale_dimension src_h src_w want_w))

unfoldable pub thumbnail_size : ℤ → ℤ → ℤ → Result (ℤ × ℤ)
thumbnail_size src_w src_h max_dim =
    if leb_ℤ src_w (pos 0) || leb_ℤ src_h (pos 0)
    then err (no_source_size src_w src_h)
    else if leb_ℤ max_dim (pos 0)
    then err (wrap [] (sentinel invalid_max_dimension) (codes ": got " ++ decimal_int max_dim))
    else if leb_ℤ src_w max_dim && leb_ℤ src_h max_dim
    then ok (src_w, src_h)
    else if leb_ℤ src_h src_w
    then ok (max_dim, at_least_one (scale_dimension src_h src_w max_dim))
    else ok (at_least_one (scale_dimension src_w src_h max_dim), max_dim)

-- The label's width and height and its margins.
unfoldable pub watermark_box : ℤ → ℤ → ℤ × ℤ × ℤ × ℤ
watermark_box w h = (
  at_least_one (quot w (pos 2)),
  at_least_one (quot h (pos 12)),
  at_least_one (quot w (pos 40)),
  at_least_one (quot h (pos 40)),
)
