-- ===== src/Localstorage/FilePath.antt =====
-- path/filepath of Go on Unix, as far as internal/adapters/localstorage uses it: `Clean`, `Join`,
-- `Dir`, `IsAbs` and `Abs`. A path is walked with a stack of names, the latest first.
use image_forge.Prelude.{
  ℕ, Bool, true, false, ◌||◌, List, [], ◌∷◌, ◌++◌, Text, text_eq, has_prefix, ◌==◌, if◌then◌else◌,
}
use image_forge.Errors.{Result, ok, err}

add_front : ℕ → List Text → List Text
add_front c [] = (c ∷ []) ∷ []
add_front c (w ∷ ws) = (c ∷ w) ∷ ws

-- The names between slashes, empty ones too.
unfoldable pub split : Text → List Text
unfolding add_front
split [] = [] ∷ []
split (c ∷ s) = let rest = split s in if c == b'/' then [] ∷ rest else add_front c rest

abbrev pub dot : Text
dot = b'.' ∷ []

abbrev pub dot_dot : Text
dot_dot = b'.' ∷ b'.' ∷ []

-- The effect of `..`.
unfoldable pub parent : Bool → List Text → List Text
parent rooted [] = if rooted then [] else dot_dot ∷ []
parent rooted (top ∷ stack) = if text_eq top dot_dot then dot_dot ∷ top ∷ stack else stack

unfoldable pub push : Bool → List Text → Text → List Text
unfolding parent
push rooted stack name =
    if text_eq name [] || text_eq name dot
    then stack
    else if text_eq name dot_dot
    then parent rooted stack
    else name ∷ stack

unfoldable pub push_all : Bool → List Text → List Text → List Text
unfolding push
push_all rooted stack [] = stack
push_all rooted stack (name ∷ names) = push_all rooted (push rooted stack name) names

-- The names of a stack with slashes between them.
unfoldable pub rendered : List Text → Text
rendered [] = []
rendered (name ∷ []) = name
rendered (name ∷ below ∷ stack) = rendered (below ∷ stack) ++ b'/' ∷ name

unfoldable pub is_abs : Text → Bool
is_abs path = has_prefix (b'/' ∷ []) path

unfoldable pub named : List Text → Text
unfolding rendered
named [] = dot
named (name ∷ stack) = rendered (name ∷ stack)

-- `filepath.Clean`
unfoldable pub clean : Text → Text
unfolding is_abs named push_all split
clean path =
    if is_abs path
    then b'/' ∷ rendered (push_all true [] (split path))
    else named (push_all false [] (split path))

-- `filepath.Join` of two elements
unfoldable pub join_path : Text → Text → Text
unfolding clean
join_path [] [] = []
join_path [] (c ∷ b) = clean (c ∷ b)
join_path (c ∷ a) [] = clean (c ∷ a)
join_path (c ∷ a) (d ∷ b) = clean (c ∷ a ++ b'/' ∷ d ∷ b)

-- What stands up to and with the last slash.
unfoldable pub dir_part : Text → Text
dir_part [] = []
dir_part (c ∷ s) = elim (dir_part s) [
  | [] ↦ if c == b'/' then c ∷ [] else []
  | d ∷ rest ↦ c ∷ d ∷ rest
]

-- `filepath.Dir`
unfoldable pub dir : Text → Text
unfolding dir_part
dir path = clean (dir_part path)

-- `filepath.Abs`, where `cwd` is what the working directory is read as.
unfoldable pub abs : Result Text → Text → Result Text
unfolding is_abs clean
abs (ok cwd) path = if is_abs path then ok (clean path) else ok (join_path cwd path)
abs (err e) path = if is_abs path then ok (clean path) else err e
