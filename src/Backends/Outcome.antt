-- ===== src/Backends/Outcome.antt =====
-- What a function of a client comes to: a value, an error, or the panic on a nil pointer.
use provisioning_backend.Common.{ℕ, ◌≡◌, refl, String, Option, none, some, if◌then◌else◌}
use provisioning_backend.Errors.{
  Error, Sentinel, named, wrapped, not_found, is, handle_http_responses,
}

pub data Outcome (A : Type 0) : Type 0 where
  ok : A → Outcome A
  err : Error → Outcome A
  panic : Outcome A

infixl 5 ◌>>=◌ ◌>>◌
abbrev pub ◌>>=◌ : {A B : Type 0} → Outcome A → (A → Outcome B) → Outcome B
ok a >>= f = f a
err x >>= f = err x
panic >>= f = panic

abbrev pub ◌>>◌ : {B : Type 0} → Outcome (Unit {0}) → Outcome B → Outcome B
m >> k = m >>= λ _. k

-- fmt.Errorf("message: %w", err)
abbrev pub annotate : {A : Type 0} → String → Outcome A → Outcome A
annotate message (ok a) = ok a
annotate message (err x) = err (wrapped message x)
annotate message panic = panic

-- The value behind a pointer.
abbrev pub deref : {A : Type 0} → Option A → Outcome A
deref none = panic
deref (some a) = ok a

-- A response of the generated clients: `json200` is nil unless the status is 200.
pub record Response (A : Type 0) : Type 0 where
  pub status : ℕ
  pub json200 : Option A

abbrev of_status : String → Sentinel → Option Error → Outcome (Unit {0})
of_status message missing none = ok tt
of_status message missing (some x) =
    if is x not_found then err (wrapped message (named missing)) else err (wrapped message x)

-- The test of a status: a 404 becomes the error that is given.
unfoldable pub check_status : String → Sentinel → ℕ → Outcome (Unit {0})
unfolding handle_http_responses is
check_status message missing status = of_status message missing (handle_http_responses status)

pub >>=-ok :
    {A B : Type 0} (m : Outcome A) (f : A → Outcome B) (b : B)
    → (m >>= f) ≡ ok b
    → (a : A) × (m ≡ ok a) × (f a ≡ ok b)
>>=-ok (ok a) f b e = (a, refl, e)
>>=-ok (err x) f b e = absurd (cc)
>>=-ok panic f b e = absurd (cc)

pub annotate-ok :
    {A : Type 0} (message : String) (m : Outcome A) (a : A) → annotate message m ≡ ok a → m ≡ ok a
annotate-ok message (ok b) a e = e
annotate-ok message (err x) a e = absurd (cc)
annotate-ok message panic a e = absurd (cc)

pub deref-ok : {A : Type 0} (o : Option A) (a : A) → deref o ≡ ok a → o ≡ some a
deref-ok none a e = absurd (cc)
deref-ok (some b) a e = cc
