-- ===== src/Jobs/Retries.antt =====
-- waitAndRetry of internal/jobs/common.go against a plain description of it.
use provisioning_backend.Common.{
  ℕ, zero, suc, ◌+◌, ◌<◌, ◌≡◌, refl, Bool, true, false, ◌||◌, List, [], ◌∷◌, length, arith,
  Bool-cases, ◌⊎◌, inl, inr,
}
use provisioning_backend.World.{Result, World, Env, M, lift, attempt, gets, ◌>>=◌}
use provisioning_backend.Jobs.Common.{retry_rounds, wait_and_retry, is_ok}

module _ {A : Type 0} (f : M A) (e : Env) where
  -- The world after `n` calls of the function one after the other.
  abbrev pub after : World → ℕ → World
  after w zero = w
  after w (suc n) = after (f e w).1 n

  -- Call `n`, counted from 0, returned no error, or the context had ended after it.
  abbrev pub stops : World → ℕ → Bool
  stops w n = is_ok (f e (after w n)).0 || e.canceled (f e (after w n)).1.calls

  -- `out` is the result and the world of one of the first `total` calls, which is the first one that
  -- stops, or else the last one.
  pub record Retried (w : World) (total : ℕ) (out : Result A × World) : Type 0 where
    pub last : ℕ
    pub bound : last < total
    pub result : out ≡ f e (after w last)
    pub earlier : (j : ℕ) → j < last → stops w j ≡ false
    pub ended : (stops w last ≡ true) ⊎ (last + 1 ≡ total)

  earlier_next :
      (w : World) (k : ℕ)
      → stops w 0 ≡ false
      → ((j : ℕ) → j < k → stops (f e w).1 j ≡ false)
      → (j : ℕ) → j < suc k
      → stops w j ≡ false
  earlier_next w k h t zero l = h
  earlier_next w k h t (suc j) l = t j (omega arith)

  Retried-next :
      (w : World) (total : ℕ) (out : Result A × World)
      → stops w 0 ≡ false
      → Retried (f e w).1 total out
      → Retried w (suc total) out
  Retried-next w total out h r = record {
    last = suc r.last;
    bound = omega (arith, r.bound);
    result = r.result;
    earlier = earlier_next w r.last h r.earlier;
    ended = elim r.ended [ inl p ↦ inl p | inr p ↦ inr (omega arith) ];
  }

  -- The first call is the one that ends the rounds.
  Retried-first :
      (w : World) (total : ℕ) → (stops w 0 ≡ true) ⊎ (1 ≡ suc total) → Retried w (suc total) (f e w)
  Retried-first w total end = record {
    last = 0;
    bound = omega arith;
    result = refl;
    earlier = λ j l. absurd (omega arith);
    ended = end;
  }

  retry_rounds-Retried :
      (i : ℕ) (is : List ℕ) (last : Result A) (w : World)
      → Retried w (length (i ∷ is)) (retry_rounds f (i ∷ is) last e w)
  unfolding retry_rounds ◌>>=◌ attempt gets lift
  retry_rounds-Retried i [] last w = elim (Bool-cases (stops w 0)) [
    | inl p ↦ rw p (Retried-first w 0 (inl p))
    | inr p ↦ rw p (Retried-first w 0 (inr refl))
  ]
  retry_rounds-Retried i (j ∷ js) last w =
      let rest = retry_rounds-Retried j js (f e w).0 (f e w).1 in
      elim (Bool-cases (stops w 0)) [
        | inl p ↦ rw p (Retried-first w _ (inl p))
        | inr p ↦ rw p (Retried-next w _ _ p rest)
      ]

  -- Whatever the function does, waitAndRetry calls it at least once and at most as often as there are
  -- intervals, and returns the result of its first call that returns no error or after which the
  -- context has ended, and of the last one if there is none; it does nothing else.
  pub wait_and_retry-Retried :
      (first second : ℕ) (intervals : List ℕ) (w : World)
      → Retried w (length intervals + 2) (wait_and_retry f first second intervals e w)
  unfolding wait_and_retry retry_rounds ◌>>=◌ attempt gets lift
  wait_and_retry-Retried first second intervals w =
      let r = retry_rounds-Retried first (second ∷ intervals) (f e w).0 w in
      record {
        last = r.last;
        bound = omega (arith, r.bound);
        result = r.result;
        earlier = r.earlier;
        ended = elim r.ended [ inl p ↦ inl p | inr p ↦ inr (omega arith) ];
      }
