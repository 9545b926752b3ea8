-- ===== src/Programs/Health/Exit.antt =====
-- What the exit code of a probe says.
use image_forge.Prelude.{ℕ, ◌≤◌, ◌<◌, ◌≡◌, refl, ◌↔◌, true, Option, none, some, List, arith, Text}
use image_forge.Errors.{Error, Result, ok, err}
use image_forge.Programs.Health.{
  requested, Client, exit_code, answered, built, probe_url, run, main_exit,
}

code-none : (e : Option Error) → (exit_code e ≡ 0) ↔ (e ≡ none)
unfolding exit_code
code-none none = (λ h. refl, λ h. refl)
code-none (some e) = (λ h. ground arith, λ h. ground (arith, h))

module _ (client : Client) where
  -- The client was answered with a status that says success.
  abbrev pub Succeeds : Text → Type 0
  Succeeds url =
      (status : ℕ) × (text : Text) × (client.answer url ≡ ok (status, text))
      × (200 ≤ status)
      × (status < 300)

  answered-none :
      (url : Text) (r : Result (ℕ × Text))
      → client.answer url ≡ r
      → (answered client url r ≡ none) ↔ Succeeds url
  unfolding answered
  answered-none url (err e) q = (λ h. ground arith, λ (s, t, h, _, _). ground (arith, h, q))
  answered-none url (ok (status, text)) q = (
    λ h. (status, text, q, ground arith, ground arith),
    λ (s, t, h, a, b). ground (arith, h, q, a, b),
  )

  built-none :
      (url : Text) (b : Option Error) → (built client url b ≡ none) ↔ ((b ≡ none) × Succeeds url)
  unfolding built
  built-none url none =
      (λ h. (refl, (answered-none url _ refl).0 h), λ (_, s). (answered-none url _ refl).1 s)
  built-none url (some e) = (λ h. ground arith, λ (h, _). ground (arith, h))

  -- A process that is started as a probe exits with 0 exactly if the request could be built and was
  -- answered with a status of 200 to 299.
  pub main_exit-Succeeds :
      (addr : Text) (args : List Text) (result : Option Error)
      → requested args ≡ true
      → (main_exit client addr args result ≡ 0)
        ↔ ((client.build (probe_url client addr) ≡ none) × Succeeds (probe_url client addr))
  unfolding main_exit run
  main_exit-Succeeds addr args result h =
      let e = run client addr in
      let b = built-none (probe_url client addr) (client.build (probe_url client addr)) in
      (λ z. b.0 ((code-none e).0 (rw h at z)), λ s. rw h ((code-none e).1 (b.1 s)))
