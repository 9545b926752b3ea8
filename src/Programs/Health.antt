-- ===== src/Programs/Health.antt =====
-- internal/healthcheck/healthcheck.go, and `main` of the two programs. The HTTP client is a parameter.
pub mod Exit
use image_forge.Prelude.{
  ℕ, Bool, false, ◌||◌, Option, none, some, List, [], ◌∷◌, ◌++◌, Text, codes, text_eq, ltb, leb,
  if◌then◌else◌,
}
use image_forge.Errors.{Error, new, wrap, Result, ok, err}
use image_forge.Config.Programs.{normalize_addr}

abbrev pub arg : Text
arg = codes "healthcheck"

-- `Requested`
unfoldable pub requested : List Text → Bool
unfolding text_eq
requested [] = false
requested (a ∷ args) = text_eq a arg

-- What the client makes of a URL: whether a request can be built, and the status with its text.
pub record Client : Type 0 where
  pub build : Text → Option Error
  pub answer : Text → Result (ℕ × Text)

-- `Main`: the code that the process exits with.
unfoldable pub exit_code : Option Error → ℕ
exit_code none = 0
exit_code (some e) = 1

module _ (client : Client) where
  answered : Text → Result (ℕ × Text) → Option Error
  answered url (err e) = some (wrap (codes "healthcheck: " ++ url ++ codes ": ") e [])
  answered url (ok (status, text)) =
      if ltb status 200 || leb 300 status
      then some (new (codes "healthcheck: " ++ url ++ codes " answered " ++ text))
      else none

  built : Text → Option Error → Option Error
  unfolding answered
  built url none = answered url (client.answer url)
  built url (some e) =
      some (wrap (codes "healthcheck: build a request for " ++ url ++ codes ": ") e [])

  -- The URL that is probed.
  unfoldable pub probe_url : Text → Text
  unfolding normalize_addr
  probe_url addr = codes "http://" ++ normalize_addr addr ++ codes "/healthz"

  -- `Run`
  unfoldable pub run : Text → Option Error
  unfolding built probe_url
  run addr = built (probe_url addr) (client.build (probe_url addr))

  -- `main` of both programs, by what `run` of the program returns if it is run
  unfoldable pub main_exit : Text → List Text → Option Error → ℕ
  unfolding requested run exit_code
  main_exit addr args result = if requested args then exit_code (run addr) else exit_code result
