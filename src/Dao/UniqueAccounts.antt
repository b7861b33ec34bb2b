-- ===== src/Dao/UniqueAccounts.antt =====
-- The table of accounts: its constraints, and what GetOrCreateByIdentity leaves in it.
use provisioning_backend.Common.{
  ℕ, ◌+◌, ◌≤◌, ◌<◌, String, ◌≡◌, ◌≢◌, ◌⊎◌, ◌↔◌, All-append, inl, inr, refl, sym, ap, ◌∙◌, Option,
  none, some, List, [], ◌∷◌, ◌++◌, Bool, true, false, not, ◌&&◌, ◌||◌, str_eq, eq_iff, arith,
  if◌then◌else◌, All, Any, any, if_elim,
}
use provisioning_backend.World.{Result, ok, one_row}
use provisioning_backend.Dao.Rows.{filter}
use provisioning_backend.Dao.Accounts.{
  Account, Table, Storage, matches, is_number, null_string, get_or_create_by_identity, violates,
}

-- Two rows with different ids, ascending, and without an organization or an account number in common.
abbrev pub Apart : Account → Account → Type 0
Apart a b =
    (a.id < b.id)
    × (a.org_id ≢ b.org_id)
    × ((n : String) → a.account_number ≡ some n → b.account_number ≢ some n)

abbrev pub Separate : List Account → Type 0
Separate [] = Unit
Separate (a ∷ rows) = All (Apart a) rows × Separate rows

abbrev pub IsValid : Table → Type 0
IsValid t = All (λ a. a.id ≤ t.last_account) t.accounts × Separate t.accounts

-- The row is of the organization, or of the account number, which is not blank.
abbrev pub Matching : String → String → Account → Type 0
Matching org_id number a = (a.org_id ≡ org_id) ⊎ ((number ≢ "") × (a.account_number ≡ some number))

matches_iff :
    (org_id number : String) (a : Account)
    → (matches org_id number a ≡ true) ↔ Matching org_id number a
unfolding matches
matches_iff org_id number a = by_number a.org_id a.account_number
  where
    by_number :
        (o : String) (n : Option String)
        → ((str_eq o org_id || (not (str_eq number "") && is_number number n)) ≡ true)
          ↔ ((o ≡ org_id) ⊎ ((number ≢ "") × (n ≡ some number)))
    by_number o none = (
      λ e. ground (arith, eq_iff o org_id),
      λ h. elim h [ inl e ↦ ground (arith, eq_iff o org_id) | inr (_, e) ↦ absurd (cc) ],
    )
    by_number o (some n) = (
      λ e. ground (
        arith,
        eq_iff o org_id,
        eq_iff number "",
        eq_iff n number,
        ap {A = String} (λ m. some m) {x = n} {y = number},
      ),
      λ h. elim h [
        | inl e ↦ ground (arith, eq_iff o org_id)
        | inr (d, e) ↦ let q : n ≡ number = cc in ground (arith, eq_iff number "", eq_iff n number)
      ],
    )

null_string-some : (number n : String) → null_string number ≡ some n → (number ≢ "") × (n ≡ number)
null_string-some number n =
    if_elim (λ o. o ≡ some n → (number ≢ "") × (n ≡ number)) (str_eq number "") none (some number)
      (λ b e. absurd (cc)) (λ b e. (λ blank. ground (arith, eq_iff number ""), cc))

Separate-append :
    (rows : List Account) (b : Account)
    → Separate rows
    → All (λ a. Apart a b) rows
    → Separate (rows ++ b ∷ [])
Separate-append [] b h k = (tt, tt)
Separate-append (a ∷ rows) b (h, hs) (k, ks) =
    (All-append (Apart a) rows (b ∷ []) h (k, tt), Separate-append rows b hs ks)

Apart-row :
    (org_id number : String) (rows : List Account) (last : ℕ)
    → any (matches org_id number) rows ≡ false
    → All (λ a. a.id ≤ last) rows
    → let row : Account = record {
      id = last + 1;
      org_id = org_id;
      account_number = null_string number;
    } in
      All (λ a. Apart a row) rows
Apart-row org_id number [] last h k = tt
Apart-row org_id number (a ∷ rows) last h (k, ks) =
    let other : matches org_id number a ≢ true = ground arith in
    let rest : any (matches org_id number) rows ≡ false = ground arith in
    (
      (
        omega arith,
        λ e. other ((matches_iff org_id number a).1 (inl e)),
        λ n e f.
            let (some_number, same) = null_string-some number n f in
            other ((matches_iff org_id number a).1 (inr (some_number, rw same at e))),
      ),
      Apart-row org_id number rows last rest ks,
    )

filter_found :
    {A : Type 0} (p : A → Bool) (rows : List A)
    → any p rows ≡ true
    → (a : A) × (rest : List A) × (filter p rows ≡ a ∷ rest)
filter_found p [] h = absurd (cc)
filter_found p (a ∷ rows) h =
    if_elim (λ l. (b : _) × (rest : _) × (l ≡ b ∷ rest)) (p a) (a ∷ filter p rows) (filter p rows)
      (λ e. (a, filter p rows, refl)) (λ e. filter_found p rows (ground arith))

Any-filter :
    {A : Type 0} (p : A → Bool) (b : A) (rows : List A)
    → Any (λ a. a ≡ b) (filter p rows)
    → Any (λ a. a ≡ b) rows × (p b ≡ true)
Any-filter p b [] h = absurd h
Any-filter p b (a ∷ rows) h =
    if_elim (λ l. Any (λ a. a ≡ b) l → Any (λ a. a ≡ b) (a ∷ rows) × (p b ≡ true)) (p a)
      (a ∷ filter p rows) (filter p rows)
      (λ e h. elim h [
        | inl same ↦ (inl same, rw same at e)
        | inr later ↦ let (x, q) = Any-filter p b rows later in (inr x, q)
      ])
      (λ e h. let (x, q) = Any-filter p b rows h in (inr x, q)) h

Any-last : {A : Type 0} (rows : List A) (a : A) → Any (λ b. b ≡ a) (rows ++ a ∷ [])
Any-last [] a = inl refl
Any-last (b ∷ rows) a = inr (Any-last rows a)

All-suc : (rows : List Account) (n : ℕ) → All (λ a. a.id ≤ n) rows → All (λ a. a.id ≤ n + 1) rows
All-suc [] n h = tt
All-suc (a ∷ rows) n (h, hs) = (omega arith, All-suc rows n hs)

-- What a call on the table `t` comes to: a row that matches and that the table holds. A new row stands last, and
-- only if none matched.
abbrev pub Stored : String → String → Table → Result Account × Table → Type 0
Stored org_id number t (r, t') =
    (a : Account) × (r ≡ ok a)
    × Matching org_id number a
    × Any (λ b. b ≡ a) t'.accounts
    × IsValid t'
    × ((t'.accounts ≡ t.accounts)
        ⊎ ((any (matches org_id number) t.accounts ≡ false) × (t'.accounts ≡ t.accounts ++ a ∷ [])))

-- A connected database; `is_blank` is the test of its CHECK constraints.
abbrev pub connected : (String → Bool) → (List Account → Option Account) → Storage
connected is_blank choose = record { fault = none; is_blank = is_blank; choose = choose }

-- On a valid table, an organization that is not blank and an account number that is empty or not blank get an account: a
-- row that has the organization or the number, and that is in the table afterwards. The table stays valid, so
-- no two rows share an id, an organization or a number, and it grows, by this row, only if no row matched.
pub get_or_create_by_identity-Stored :
    (is_blank : String → Bool) (choose : List Account → Option Account) (org_id number : String)
    (t : Table)
    → ((a : Account) (rows : List Account)
        → (b : Account) × (choose (a ∷ rows) ≡ some b) × Any (λ c. c ≡ b) (a ∷ rows))
    → is_blank org_id ≡ false
    → (number ≢ "" → is_blank number ≡ false)
    → IsValid t
    → Stored org_id number t (get_or_create_by_identity (connected is_blank choose) org_id number t)
unfolding get_or_create_by_identity
get_or_create_by_identity-Stored is_blank choose org_id number t chooses org num (bound, separate) =
    let passes : violates is_blank org_id number ≡ false = ground (arith, num, eq_iff number "") in
    rw passes (by_search (any (matches org_id number) t.accounts) refl)
  where
    row : Account
    row = record { id = t.last_account + 1; org_id = org_id; account_number = null_string number }

    by_search :
        (b : Bool)
        → any (matches org_id number) t.accounts ≡ b
        → Stored org_id number t (
            if b
            then (
              one_row (choose (filter (matches org_id number) t.accounts)),
              record t { last_account = t.last_account + 1 },
            )
            else (
              one_row (choose (row ∷ [])),
              record { accounts = t.accounts ++ row ∷ []; last_account = t.last_account + 1 },
            ))
    by_search true found =
        let (x, xs, f) = filter_found (matches org_id number) t.accounts found in
        let (b, c, m) = chooses x xs in
        let (held, matched) = Any-filter (matches org_id number) b t.accounts (rw f m) in
        (
          b,
          rw f (rw c refl),
          (matches_iff org_id number b).0 matched,
          held,
          (All-suc t.accounts t.last_account bound, separate),
          inl refl,
        )
    by_search false absent =
        let (b, c, m) = chooses row [] in
        let same : row ≡ b = elim m [ inl e ↦ e | inr x ↦ absurd x ] in
        let only : choose (row ∷ []) ≡ some row = c ∙ ap (λ x. some x) (sym same) in
        (
          row,
          rw only refl,
          inl refl,
          Any-last t.accounts row,
          (
            All-append (λ a. a.id ≤ t.last_account + 1) t.accounts (row ∷ [])
                (All-suc t.accounts t.last_account bound) (omega arith, tt),
            Separate-append t.accounts row separate
                (Apart-row org_id number t.accounts t.last_account absent bound),
          ),
          inr (absent, refl),
        )
