-- ===== src/Services/Render.antt =====
-- How a handler answers (internal/services/error_renderer.go, the constructors of
-- internal/payloads/error_payload.go and the enqueuer of internal/queue). Of a response its status is
-- kept. The renderer of Chi writes nothing when it fails.
use provisioning_backend.Common.{
  ℕ, Bool, false, none, some, [], ◌∷◌, ◌++◌, if◌then◌else◌, str_eq, String,
}
use provisioning_backend.Errors.{Error, opaque, is, no_rows}
use provisioning_backend.Models.{ProviderType, Job}
use provisioning_backend.World.{
  Result, ok, err, Env, M, pure, fail, check, modify, attempt, ◌>>=◌, ◌>>◌,
}

-- The status of a response is written.
unfoldable pub write : ℕ → M (Unit {0})
write status = modify λ s. record s { responses = s.responses ++ status ∷ [] }

abbrev pub written : ℕ → ℕ → Result (Unit {0}) → ℕ
written status fallback (ok a) = status
written status fallback (err x) = fallback

-- renderError, with writeBasicError where the renderer fails.
unfoldable pub render_error : ℕ → M (Unit {0})
unfolding write
render_error status = do r ← attempt (check λ e n. e.render_fault n); write (written status 500 r)

abbrev pub rendered : Result (Unit {0}) → M (Unit {0})
rendered (ok a) = write 200
rendered (err x) = render_error 500

-- render.Render of the payload, and renderError(NewRenderError(…)) where it fails.
unfoldable pub render : M (Unit {0})
render = do r ← attempt (check λ e n. e.render_fault n); rendered r

abbrev pub answered : {A : Type 0} → (Error → ℕ) → Result A → M A
answered status (ok a) = pure a
answered status (err x) = do render_error (status x); fail x

-- `if err != nil { renderError(…); return }`: the rest of the handler is left out by the error.
unfoldable pub or_render : {A : Type 0} → (Error → ℕ) → M A → M A
or_render status m = do r ← attempt m; answered status r

-- A test of the request: the error's text does not matter.
unfoldable pub guard : (Env → Bool) → M (Unit {0})
guard test e w = if test e then (ok tt, w) else (err (opaque "invalid request"), w)

-- The status of renderNotFoundOrDAOError.
abbrev pub not_found_or_dao_error : Error → ℕ
not_found_or_dao_error x = if is x no_rows then 404 else 500

-- The enqueuer: Redis pushes a job at the end that workers take jobs from.
unfoldable pub enqueue : Job → M (Unit {0})
enqueue job = do check λ e n. e.enqueue_fault n; modify λ s. record s { queue = job ∷ s.queue }

-- Validation of an instance type: known, and of the one architecture that images have.
abbrev pub supported_type : ProviderType → String → Env → Bool
supported_type provider name e = elim (e.find_architecture provider name) [
  | none ↦ false
  | some architecture ↦ str_eq architecture "x86_64"
]
