-- ===== src/Services/Contracts.antt =====
-- Rules for what a handler of internal/services leaves behind: until it enqueues a job it either goes on
-- with nothing written, or it has written one error and stopped.
use provisioning_backend.Common.{
  ℕ, ◌≤◌, ◌≡◌, refl, Option-cases, inl, inr, List, [], ◌∷◌, ◌++◌, arith,
}
use provisioning_backend.Errors.{Error}
use provisioning_backend.Models.{Job}
use provisioning_backend.World.{
  Result, ok, err, Db, State, World, Env, Notice, M, pure, fail, gets, call, check, attempt, modify,
  continue, ◌>>=◌,
}
use provisioning_backend.World.Keeps.{Keeps}
use provisioning_backend.Services.Render.{write, render_error, answered, or_render}

-- What an action guarantees of its result and of the state after it.
pub record Ensures (e : Env) {A : Type 0} (P : State → Type 0) (m : M A)
    (Q : Result A → State → Type 0) : Type 0 where
  pub at :
      (s : State) (n : ℕ) → P s → let (r, w) = m e (record { state = s; calls = n }) in Q r w.state

-- The queue, the notifications and the responses before a request.
pub record Before : Type 0 where
  pub queue : List Job
  pub notices : List Notice
  pub responses : List ℕ

-- The request goes on: nothing is enqueued, sent or written, and the database satisfies `D`.
pub record GoesOn (b : Before) (D : Db → Type 0) (s : State) : Type 0 where
  pub holds : D s.db
  pub queued : s.queue ≡ b.queue
  pub told : s.notices ≡ b.notices
  pub answered : s.responses ≡ b.responses

-- The request was refused: one error was written, and nothing was enqueued or sent.
pub record Rejected (b : Before) (s : State) : Type 0 where
  pub queued : s.queue ≡ b.queue
  pub told : s.notices ≡ b.notices
  pub status : ℕ
  pub is_error : 400 ≤ status
  pub answered : s.responses ≡ b.responses ++ status ∷ []

abbrev pub Phase : Before → {A : Type 0} → (A → Db → Type 0) → Result A → State → Type 0
Phase b D (ok a) s = GoesOn b (D a) s
Phase b D (err x) s = Rejected b s

abbrev pub Any : Db → Type 0
Any db = Unit {0}

-- As Phase, of an action that writes no error.
abbrev pub Silent : Before → {A : Type 0} → (A → Db → Type 0) → Result A → State → Type 0
Silent b D (ok a) s = GoesOn b (D a) s
Silent b D (err x) s = GoesOn b Any s

silent :
    {b : Before} {A : Type 0} (D : Db → Type 0) (r : Result A) (s : State)
    → GoesOn b D s
    → Silent b (λ a. D) r s
silent D (ok a) s h = h
silent D (err x) s h = record {
  holds = tt;
  queued = h.queued;
  told = h.told;
  answered = h.answered;
}

module _ (e : Env) (b : Before) where
  -- One error is written, whether the renderer works or not.
  pub render_error-Rejected :
      (status : ℕ) (s : State) (n : ℕ)
      → 400 ≤ status
      → GoesOn b Any s
      → Rejected b (render_error status e (record { state = s; calls = n })).1.state
  unfolding render_error write modify attempt ◌>>=◌ check call
  render_error-Rejected status s n le h = elim (Option-cases (e.render_fault n)) [
    | inl p ↦ rw p (record {
      queued = h.queued;
      told = h.told;
      status = status;
      is_error = le;
      answered = rw h.answered refl;
    })
    | inr (y, p) ↦ rw p (record {
      queued = h.queued;
      told = h.told;
      status = 500;
      is_error = omega arith;
      answered = rw h.answered refl;
    })
  ]

  answered_phase :
      {A : Type 0} (status : Error → ℕ) (D : A → Db → Type 0) (r : Result A) (s : State) (n : ℕ)
      → ((x : Error) → 400 ≤ status x)
      → Silent b D r s
      → let (r', w) = answered status r e (record { state = s; calls = n }) in Phase b D r' w.state
  unfolding pure fail ◌>>=◌ render_error write modify attempt check call
  answered_phase status D (ok a) s n le h = h
  answered_phase status D (err x) s n le h = render_error-Rejected (status x) s n (le x) h

module _ {e : Env} {b : Before} where
  pub Ensures-or_render :
      {A : Type 0} {P : State → Type 0} (status : Error → ℕ) (D : A → Db → Type 0) (m : M A)
      → ((x : Error) → 400 ≤ status x)
      → Ensures e P m (Silent b D)
      → Ensures e P (or_render status m) (Phase b D)
  unfolding or_render ◌>>=◌ attempt
  Ensures-or_render status D m le k = record {
    at = λ s n h.
        let (r, w) = m e (record { state = s; calls = n }) in
        answered_phase e b status D r w.state w.calls le (k.at s n h);
  }

  continue_phase :
      {A B : Type 0} (D : A → Db → Type 0) (Q : Result B → State → Type 0) (f : A → M B)
      → ((a : A) → Ensures e (GoesOn b (D a)) (f a) Q)
      → ((x : Error) (s : State) → Rejected b s → Q (err x) s)
      → (r : Result A) (s : State) (n : ℕ) → Phase b D r s
      → let (r', w) = continue r f e (record { state = s; calls = n }) in Q r' w.state
  continue_phase D Q f k j (ok a) s n h = (k a).at s n h
  continue_phase D Q f k j (err x) s n h = j x s h

  pub Ensures-bind :
      {A B : Type 0} {P : State → Type 0} (D : A → Db → Type 0) (Q : Result B → State → Type 0)
      (m : M A) (f : A → M B)
      → ((x : Error) (s : State) → Rejected b s → Q (err x) s)
      → Ensures e P m (Phase b D)
      → ((a : A) → Ensures e (GoesOn b (D a)) (f a) Q)
      → Ensures e P (m >>= f) Q
  unfolding ◌>>=◌
  Ensures-bind D Q m f j km kf = record {
    at = λ s n h.
        let (r, w) = m e (record { state = s; calls = n }) in
        continue_phase D Q f kf j r w.state w.calls (km.at s n h);
  }

  pub Ensures-Keeps :
      {A : Type 0} (D : Db → Type 0) (m : M A)
      → Keeps e (GoesOn b D) m
      → Ensures e (GoesOn b D) m (Silent b (λ a. D))
  Ensures-Keeps D m k = record {
    at = λ s n h.
        let (r, w) = m e (record { state = s; calls = n }) in silent D r w.state (k.at s n h);
  }

  pub Ensures-pure :
      {A : Type 0} (D : A → Db → Type 0) (a : A) → Ensures e (GoesOn b (D a)) (pure a) (Phase b D)
  unfolding pure
  Ensures-pure D a = record { at = λ s n h. h }

  pub Ensures-gets :
      {A : Type 0} (D : Db → Type 0) (f : Env → World → A)
      → Ensures e (GoesOn b D) (gets f) (Phase b (λ a. D))
  unfolding gets
  Ensures-gets D f = record { at = λ s n h. h }

  pub Ensures-call_ok :
      {A : Type 0} (D : Db → Type 0) (f : Env → ℕ → A)
      → Ensures e (GoesOn b D) (call (λ e' n. ok (f e' n))) (Phase b (λ a. D))
  unfolding call
  Ensures-call_ok D f = record { at = λ s n h. h }
