-- ===== src/Errors/Status.antt =====
-- The statuses that reach a user, through any number of fmt.Errorf wrappings.
use provisioning_backend.Common.{
  ℕ, ◌≤◌, Option-cases, inl, inr, String, ◌≡◌, refl, ◌↔◌, none, some, List, [], ◌∷◌, arith, ◌==◌,
  if◌then◌else◌,
}
use provisioning_backend.Errors.{
  Error, wrapped, is, Sentinel, http_client, err_status, find_in_chain, find_user_payload,
  new_client_error, handle_http_responses, chain,
}

-- An error passed up through calls that each wrap it with a message of their own.
abbrev pub wrap_all : List String → Error → Error
wrap_all [] e = e
wrap_all (m ∷ ms) e = wrapped m (wrap_all ms e)

chain-wrap_all : (ms : List String) (e : Error) → chain (wrap_all ms e) ≡ chain e
unfolding chain
chain-wrap_all [] e = refl
chain-wrap_all (m ∷ ms) e = chain-wrap_all ms e

new_client_error-wrap_all :
    (ms : List String) (e : Error) → new_client_error (wrap_all ms e) ≡ new_client_error e
unfolding new_client_error
new_client_error-wrap_all [] e = refl
new_client_error-wrap_all (m ∷ ms) e = new_client_error-wrap_all ms e

pub is-wrap_all : (ms : List String) (e : Error) (s : Sentinel) → is (wrap_all ms e) s ≡ is e s
unfolding is
is-wrap_all ms e s = rw chain-wrap_all refl

-- A backend's status that is no success reaches the user as 404, 401 or 403 if it is one of these
-- and as 500 otherwise, through any number of wrappings; a success (200 to 299) gives no error.
pub new_client_error-handle_http_responses :
    (status : ℕ) (ms : List String)
    → ((handle_http_responses status ≡ none) ↔ ((200 ≤ status) × (status ≤ 299)))
      × ((e : Error)
          → handle_http_responses status ≡ some e
          → new_client_error (wrap_all ms e) ≡ (
              if status == 404
              then 404
              else if status == 401
              then 401
              else if status == 403
              then 403
              else 500))
unfolding handle_http_responses new_client_error
new_client_error-handle_http_responses status ms =
    (ground arith, λ e h. rw new_client_error-wrap_all (ground arith))

err_status_bound : (s : Sentinel) (c : ℕ) → err_status s ≡ some c → 400 ≤ c
unfolding err_status
err_status_bound http_client c h = ground arith
err_status_bound s c h = ground arith

find_in_chain_bound : (l : List Sentinel) (c : ℕ) → find_in_chain l ≡ some c → 400 ≤ c
unfolding find_in_chain
find_in_chain_bound [] c h = cc
find_in_chain_bound (s ∷ l) c h = elim (Option-cases (err_status s)) [
  | inl p ↦ find_in_chain_bound l c (rw (p, find_in_chain) at h)
  | inr (x, p) ↦ let e : x ≡ c = ground (arith) in omega (arith, err_status_bound s x p)
]

-- A user never sees a success for an error of a client.
pub new_client_error_bound : (e : Error) → 400 ≤ new_client_error e
unfolding new_client_error
new_client_error_bound e = elim (Option-cases (find_user_payload e)) [
  | inl p ↦ rw (p, new_client_error) (omega arith)
  | inr (x, p) ↦
      rw (p, new_client_error) (unfold find_user_payload in find_in_chain_bound (chain e) x p)
]
