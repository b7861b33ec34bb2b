-- ===== src/Clouds/Actions/Keeps.antt =====
-- Actions that request only what a predicate allows, whether they succeed or not.
use provisioning_backend.Common.{◌≡◌, refl, String, List, All}
use provisioning_backend.Backends.Outcome.{Outcome, ok, err, panic}
use provisioning_backend.Clouds.Actions.{
  Action, Run, pure, lift, annotate, attempt, continue, ◌>>=◌,
}

-- If all requests made before satisfy the predicate, all requests made by then do.
abbrev pub Keeps : {R A : Type 0} → (R → Type 0) → Action R A → Type 0
Keeps {R} {A} P m = (log : List R) → All P log → All P (m log).1

module _ {R : Type 0} (P : R → Type 0) where
  pub pure-Keeps : {A : Type 0} (a : A) → Keeps P (pure a)
  unfolding pure
  pure-Keeps a log h = h

  pub lift-Keeps : {A : Type 0} (o : Outcome A) → Keeps P (lift o)
  unfolding lift
  lift-Keeps o log h = h

  pub annotate-Keeps :
      {A : Type 0} (message : String) (m : Action R A) → Keeps P m → Keeps P (annotate message m)
  unfolding annotate
  annotate-Keeps message m k log h = k log h

  pub attempt-Keeps : {A : Type 0} (m : Action R A) → Keeps P m → Keeps P (attempt m)
  unfolding attempt
  attempt-Keeps m k log h = k log h

  pub >>=-Keeps :
      {A B : Type 0} (m : Action R A) (f : A → Action R B)
      → Keeps P m
      → ((a : A) (log log' : List R) → Run m log a log' → Keeps P (f a))
      → Keeps P (m >>= f)
  unfolding ◌>>=◌
  >>=-Keeps {A} {B} m f k next log h = by_outcome (m log) refl (k log h)
    where
      by_outcome : (p : Outcome A × List R) → m log ≡ p → All P p.1 → All P (continue p.0 f p.1).1
      by_outcome (ok a, mid) e h' = next a log mid e mid h'
      by_outcome (err x, mid) e h' = h'
      by_outcome (panic, mid) e h' = h'
