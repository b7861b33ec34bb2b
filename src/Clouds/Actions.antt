-- ===== src/Clouds/Actions.antt =====
-- Calls of a cloud: what was requested so far outlives an error, and an answer may depend on it.
pub mod Keeps
use provisioning_backend.Common.{◌≡◌, refl, String, List, [], ◌∷◌, ◌++◌}
use provisioning_backend.Backends.Outcome.{Outcome, ok, err, panic}
use provisioning_backend.Backends.Outcome

abbrev pub Action : Type 0 → Type 0 → Type 0
Action R A = List R → Outcome A × List R

module _ {R : Type 0} where
  module _ {A : Type 0} where
    unfoldable pub pure : A → Action R A
    pure a log = (ok a, log)

    unfoldable pub lift : Outcome A → Action R A
    lift o log = (o, log)

    -- fmt.Errorf("message: %w", err)
    unfoldable pub annotate : String → Action R A → Action R A
    annotate message m log = let (o, log') = m log in (Outcome.annotate message o, log')

    -- The outcome as a value.
    unfoldable pub attempt : Action R A → Action R (Outcome A)
    attempt m log = let (o, log') = m log in (ok o, log')

    -- A request, answered by what was requested before it.
    unfoldable pub send : (List R → R → Outcome A) → R → Action R A
    send answer r log = (answer log r, log ++ r ∷ [])

  module _ {A B : Type 0} where
    abbrev pub continue : Outcome A → (A → Action R B) → Action R B
    continue (ok a) f log = f a log
    continue (err x) f log = (err x, log)
    continue panic f log = (panic, log)

    infixl 5 ◌>>=◌ ◌>>◌
    unfoldable pub ◌>>=◌ : Action R A → (A → Action R B) → Action R B
    ◌>>=◌ m f log = let (o, log') = m log in continue o f log'

    abbrev pub ◌>>◌ : Action R A → Action R B → Action R B
    m >> k = m >>= λ _. k

-- The action succeeds, with a value and the requests made by then.
abbrev pub Run : {R A : Type 0} → Action R A → List R → A → List R → Type 0
Run m log a log' = m log ≡ (ok a, log')

module _ {R : Type 0} where
  pub pure-Run :
      {A : Type 0} (a b : A) (log log' : List R) → Run (pure a) log b log' → (a ≡ b) × (log ≡ log')
  unfolding pure
  pure-Run a b log log' h = (cc, cc)

  pub lift-Run :
      {A : Type 0} (o : Outcome A) (a : A) (log log' : List R)
      → Run (lift o) log a log'
      → (o ≡ ok a) × (log ≡ log')
  unfolding lift
  lift-Run o a log log' h = (cc, cc)

  pub send-Run :
      {A : Type 0} (answer : List R → R → Outcome A) (r : R) (a : A) (log log' : List R)
      → Run (send answer r) log a log'
      → (answer log r ≡ ok a) × (log' ≡ log ++ r ∷ [])
  unfolding send
  send-Run answer r a log log' h = (cc, cc)

  pub annotate-Run :
      {A : Type 0} (message : String) (m : Action R A) (a : A) (log log' : List R)
      → Run (annotate message m) log a log'
      → Run m log a log'
  unfolding annotate
  annotate-Run {A} message m a log log' h = by_outcome (m log) h
    where
      by_outcome :
          (p : Outcome A × List R)
          → ◌≡◌ {A = Outcome A × List R} (Outcome.annotate message p.0, p.1) (ok a, log')
          → p ≡ (ok a, log')
      by_outcome (ok b, l) e = cc
      by_outcome (err x, l) e = absurd (cc)
      by_outcome (panic, l) e = absurd (cc)

  pub >>=-Run :
      {A B : Type 0} (m : Action R A) (f : A → Action R B) (b : B) (log log' : List R)
      → Run (m >>= f) log b log'
      → (a : A) × (mid : List R) × Run m log a mid × Run (f a) mid b log'
  unfolding ◌>>=◌
  >>=-Run {A} {B} m f b log log' h = by_outcome (m log) refl h
    where
      by_outcome :
          (p : Outcome A × List R)
          → m log ≡ p
          → continue p.0 f p.1 ≡ (ok b, log')
          → (a : A) × (mid : List R) × Run m log a mid × Run (f a) mid b log'
      by_outcome (ok a, mid) e k = (a, mid, e, k)
      by_outcome (err x, mid) e k = absurd (cc)
      by_outcome (panic, mid) e k = absurd (cc)
