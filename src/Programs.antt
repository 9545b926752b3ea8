-- ===== src/Programs.antt =====
-- cmd/api/main.go, cmd/worker/main.go and internal/healthcheck: what the two processes do from their
-- start to their exit, over the calls of the parts, which act on a world.
pub mod Api
pub mod Worker
pub mod Health
use image_forge.Prelude.{ℕ, List, [], ◌∷◌, ◌==◌, if◌then◌else◌}

-- What a process holds and has to release.
pub data Resource : Type 0 where
  tracing adapters api listener connections processor metrics : Resource

abbrev pub code_of : Resource → ℕ
code_of tracing = 0
code_of adapters = 1
code_of api = 2
code_of listener = 3
code_of processor = 4
code_of metrics = 5
code_of connections = 6

-- Removes the latest of that kind.
unfoldable pub release : Resource → List Resource → List Resource
release x [] = []
release x (y ∷ ys) = if code_of x == code_of y then ys else y ∷ release x ys

-- A `defer` of a call without a result, before a return.
abbrev pub deferred : {W A : Type 0} → (W → W) → W × A → W × A
deferred cleanup (w, a) = (cleanup w, a)
