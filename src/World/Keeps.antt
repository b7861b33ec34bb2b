-- ===== src/World/Keeps.antt =====
-- Rules for predicates on the state that an action keeps, whatever the outside answers and whether
-- the action returns a value or an error.
use provisioning_backend.Common.{
  ℕ, String, Bool, true, false, if◌then◌else◌, Option, Option-cases, inl, inr,
}
use provisioning_backend.Errors.{Error}
use provisioning_backend.World.{
  Result, ok, err, Db, State, World, Env, M, pure, fail, lift, read, gets, call, attempt, modify,
  annotate, check, ignore, query, statement, exec, continue, ◌>>=◌,
}

pub record Keeps (e : Env) {A : Type 0} (P : State → Type 0) (m : M A) : Type 0 where
  pub at : (s : State) (n : ℕ) → P s → P (m e (record { state = s; calls = n })).1.state

module _ {e : Env} {A : Type 0} {P : State → Type 0} where
  pub Keeps-pure : (a : A) → Keeps e P (pure a)
  unfolding pure
  Keeps-pure a = record { at = λ s n h. h }

  pub Keeps-fail : (x : Error) → Keeps e P (fail {A = A} x)
  unfolding fail
  Keeps-fail x = record { at = λ s n h. h }

  pub Keeps-lift : (r : Result A) → Keeps e P (lift r)
  unfolding lift
  Keeps-lift r = record { at = λ s n h. h }

  pub Keeps-read : (f : Env → Result A) → Keeps e P (read f)
  unfolding read
  Keeps-read f = record { at = λ s n h. h }

  pub Keeps-gets : (f : Env → World → A) → Keeps e P (gets f)
  unfolding gets
  Keeps-gets f = record { at = λ s n h. h }

  pub Keeps-call : (f : Env → ℕ → Result A) → Keeps e P (call f)
  unfolding call
  Keeps-call f = record { at = λ s n h. h }

  pub Keeps-query : (f : Env → Db → Result A) → Keeps e P (query f)
  unfolding query
  Keeps-query f = record { at = λ s n h. h }

  pub Keeps-attempt : (m : M A) → Keeps e P m → Keeps e P (attempt m)
  unfolding attempt
  Keeps-attempt m k = record { at = k.at }

  pub Keeps-ignore : (m : M A) → Keeps e P m → Keeps e P (ignore m)
  unfolding ignore
  Keeps-ignore m k = record { at = k.at }

  pub Keeps-annotate : (t : String) (m : M A) → Keeps e P m → Keeps e P (annotate t m)
  unfolding annotate
  Keeps-annotate t m k = record { at = k.at }

  pub Keeps-if : (b : Bool) (m k : M A) → Keeps e P m → Keeps e P k → Keeps e P (if b then m else k)
  Keeps-if true m k km kk = km
  Keeps-if false m k km kk = kk

module _ {e : Env} {P : State → Type 0} where
  pub Keeps-check : (f : Env → ℕ → Option Error) → Keeps e P (check f)
  unfolding check call
  Keeps-check f = record { at = λ s n h. h }

  pub Keeps-modify : (f : State → State) → ((s : State) → P s → P (f s)) → Keeps e P (modify f)
  unfolding modify
  Keeps-modify f k = record { at = λ s n h. k s h }

  pub Keeps-statement :
      (f : Env → ℕ → Db → Db × ℕ)
      → ((s : State) (n : ℕ) → P s → P (record s { db = (f e n s.db).0 }))
      → Keeps e P (statement f)
  unfolding statement
  Keeps-statement f k = record {
    at = λ s n h. elim (Option-cases (e.fault n)) [
      | inl p ↦ rw (p, statement) (k s n h)
      | inr (x, p) ↦ rw (p, statement) h
    ];
  }

  pub Keeps-exec :
      {A : Type 0} (message : String) (f : Env → ℕ → Db → A × Db)
      → ((s : State) (n : ℕ) → P s → P (record s { db = (f e n s.db).1 }))
      → Keeps e P (exec message f)
  unfolding exec
  Keeps-exec message f k = record {
    at = λ s n h. elim (Option-cases (e.fault n)) [
      | inl p ↦ rw (p, exec) (k s n h)
      | inr (x, p) ↦ rw (p, exec) h
    ];
  }

module _ {e : Env} {A B : Type 0} {P : State → Type 0} where
  pub Keeps-continue :
      (r : Result A) (f : A → M B) → ((a : A) → Keeps e P (f a)) → Keeps e P (continue r f)
  Keeps-continue (ok a) f k = record { at = (k a).at }
  Keeps-continue (err x) f k = record { at = λ s n h. h }

  pub Keeps-bind :
      (m : M A) (f : A → M B) → Keeps e P m → ((a : A) → Keeps e P (f a)) → Keeps e P (m >>= f)
  unfolding ◌>>=◌
  Keeps-bind m f km kf = record {
    at = λ s n h.
        let (r, w) = m e (record { state = s; calls = n }) in
        (Keeps-continue r f kf).at w.state w.calls (km.at s n h);
  }

pub ruleset keeps_rules = (
  Keeps-pure, Keeps-fail, Keeps-lift, Keeps-read, Keeps-gets, Keeps-call, Keeps-query,
  Keeps-attempt, Keeps-ignore, Keeps-annotate, Keeps-if, Keeps-check, Keeps-bind,
)
