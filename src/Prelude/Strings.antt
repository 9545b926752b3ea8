-- ===== src/Prelude/Strings.antt =====
-- A Go string is a sequence of bytes. Text literals are ASCII, so their code points are their bytes.
use Prim.Native.Nat.{ℕ, zero, suc, ◌+◌, ◌/◌, ◌%◌}
use Prim.Native.Char.{code}
use Prim.Native.String.{String}
use mathlib.Core.Path.{◌≡◌, refl}
use mathlib.Core.Logic.{◌↔◌}
use mathlib.Core.Bool.{Bool, true, false, ◌&&◌, ◌||◌}
use mathlib.Core.Option.{Option, none, some}
use mathlib.Core.List.{List, [], ◌∷◌, ◌++◌}
use native.Mathlib.Omega.{arith}
use image_forge.Prelude.Tests.{leb, ◌==◌, if◌then◌else◌}
use image_forge.Prelude.Int.{ℤ, pos, negsuc}

abbrev pub Text : Type 0
Text = List ℕ

-- A literal.
abbrev pub codes : String → Text
codes String.[] = []
codes (String.◌∷◌ c s) = code c ∷ codes s

-- `a == b` on strings.
unfoldable pub text_eq : Text → Text → Bool
text_eq [] [] = true
text_eq [] (_ ∷ _) = false
text_eq (_ ∷ _) [] = false
text_eq (a ∷ s) (b ∷ t) = (a == b) && text_eq s t

pub text_eq_refl : (s : Text) → text_eq s s ≡ true
unfolding text_eq
text_eq_refl [] = refl
text_eq_refl (a ∷ s) = ground (arith, text_eq_refl s)

pub text_eq-eq : (s t : Text) → text_eq s t ≡ true → s ≡ t
unfolding text_eq
text_eq-eq [] [] h = refl
text_eq-eq [] (_ ∷ _) h = cc
text_eq-eq (_ ∷ _) [] h = cc
text_eq-eq (a ∷ s) (b ∷ t) h = ground (arith, text_eq-eq s t)

pub text_eq_iff : (s t : Text) → (text_eq s t ≡ true) ↔ (s ≡ t)
text_eq_iff s t = (text_eq-eq s t, λ e. ground (arith, text_eq_refl s))

-- `strings.HasPrefix`, the prefix first.
unfoldable pub has_prefix : Text → Text → Bool
has_prefix [] t = true
has_prefix (_ ∷ _) [] = false
has_prefix (a ∷ s) (b ∷ t) = (a == b) && has_prefix s t

-- Decimal digits before an accumulator, for `fmt`'s `%d`. A number has at most as many digits as
-- its successor, so that is the fuel.
decimal_from : ℕ → ℕ → Text → Text
decimal_from zero n acc = acc
decimal_from (suc fuel) n acc =
    let acc' = (b'0' + n % 10) ∷ acc in
    let rest = decimal_from fuel (n / 10) acc' in if n / 10 == 0 then acc' else rest

unfoldable pub decimal : ℕ → Text
unfolding decimal_from
decimal n = decimal_from (suc n) n []

unfoldable pub decimal_int : ℤ → Text
unfolding decimal
decimal_int (pos n) = decimal n
decimal_int (negsuc n) = codes "-" ++ decimal (suc n)

-- The white space of Unicode in UTF-8, as `unicode.IsSpace`: one byte, two bytes, three bytes.
abbrev space1 : ℕ → Bool
space1 a = (a == 32) || (leb 9 a && leb a 13)

abbrev space2 : ℕ → ℕ → Bool
space2 a b = (a == 194) && ((b == 133) || (b == 160))

abbrev space3 : ℕ → ℕ → ℕ → Bool
space3 a b c =
    ((a == 225) && (b == 154) && (c == 128))
    || ((a == 226)
        && (b == 128)
        && ((leb 128 c && leb c 138) || (c == 168) || (c == 169) || (c == 175)))
    || ((a == 226) && (b == 129) && (c == 159))
    || ((a == 227) && (b == 128) && (c == 128))

-- Whether `strings.TrimSpace` leaves nothing.
unfoldable pub blank : Text → Bool
blank [] = true
blank (a ∷ []) = space1 a
blank (a ∷ b ∷ []) = (space1 a && space1 b) || space2 a b
blank (a ∷ b ∷ c ∷ s) =
    (space1 a && blank (b ∷ c ∷ s)) || (space2 a b && blank (c ∷ s)) || (space3 a b c && blank s)

-- `strings.TrimSpace`
trim_start : Text → Text
trim_start [] = []
trim_start (a ∷ []) = if space1 a then [] else a ∷ []
trim_start (a ∷ b ∷ []) =
    let one = trim_start (b ∷ []) in if space1 a then one else if space2 a b then [] else a ∷ b ∷ []
trim_start (a ∷ b ∷ c ∷ s) =
    let one = trim_start (b ∷ c ∷ s) in
    let two = trim_start (c ∷ s) in
    let three = trim_start s in
    if space1 a
    then one
    else if space2 a b
    then two
    else if space3 a b c
    then three
    else a ∷ b ∷ c ∷ s

trim_end : Text → Text
trim_end [] = []
trim_end (a ∷ s) = let rest = trim_end s in if blank (a ∷ s) then [] else a ∷ rest

unfoldable pub trim_space : Text → Text
unfolding trim_start trim_end blank
trim_space s = trim_end (trim_start s)

-- `strings.Cut` at a byte: what stands before it and after it, if it is there.
unfoldable pub cut : ℕ → Text → Option (Text × Text)
cut sep [] = none
cut sep (a ∷ s) = elim (cut sep s) [
  | none ↦ if a == sep then some ([], s) else none
  | some (before, after) ↦ if a == sep then some ([], s) else some (a ∷ before, after)
]

-- `strings.ToLower` on ASCII.
unfoldable pub lower : Text → Text
lower [] = []
lower (a ∷ s) = (if leb b'A' a && leb a b'Z' then a + 32 else a) ∷ lower s

-- `strings.Contains`, the substring first.
unfoldable pub contains : Text → Text → Bool
contains sub [] = has_prefix sub []
contains sub (a ∷ s) = has_prefix sub (a ∷ s) || contains sub s
