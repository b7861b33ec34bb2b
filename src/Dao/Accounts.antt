-- ===== src/Dao/Accounts.antt =====
-- accountDao of internal/dao/pgx/account_pgx.go, with models.Account. Which row PostgreSQL leaves of a UNION with
-- LIMIT 1 is a parameter.
use provisioning_backend.Common.{
  ℕ, ◌+◌, String, Bool, false, not, ◌&&◌, ◌||◌, ◌==◌, Option, none, some, List, [], ◌∷◌, ◌++◌, any,
  take, drop, str_eq, if◌then◌else◌,
}
use provisioning_backend.Errors.{Error, postgres, wrapped}
use provisioning_backend.World.{Result, ok, err, one_row}
use provisioning_backend.Dao.Rows.{find, filter}

-- models.Account; a NULL account number is `none`.
pub record Account : Type 0 where
  pub id : ℕ
  pub org_id : String
  pub account_number : Option String

-- The table accounts and the last value of its sequence.
pub record Table : Type 0 where
  pub accounts : List Account
  pub last_account : ℕ

pub record Storage : Type 0 where
  -- an error of the connection to the database
  pub fault : Option Error
  -- the SQL function of the CHECK constraints
  pub is_blank : String → Bool
  -- the row that LIMIT 1 leaves of a UNION that is not ordered
  pub choose : List Account → Option Account

abbrev pub is_number : String → Option String → Bool
is_number number none = false
is_number number (some n) = str_eq n number

-- The sql.NullString of an account number.
abbrev pub null_string : String → Option String
null_string number = if str_eq number "" then none else some number

-- The rows that the query of GetOrCreateByIdentity selects by organization or account number.
unfoldable pub matches : String → String → Account → Bool
matches org_id number a =
    str_eq a.org_id org_id || (not (str_eq number "") && is_number number a.account_number)

abbrev is_blank_number : (String → Bool) → Option String → Bool
is_blank_number is_blank none = false
is_blank_number is_blank (some n) = is_blank n

abbrev conflicting_number : Option String → Account → Bool
conflicting_number none a = false
conflicting_number (some n) a = is_number n a.account_number

-- The UNIQUE constraints on the organization and on the account number.
abbrev conflicts : Account → Account → Bool
conflicts row a = str_eq a.org_id row.org_id || conflicting_number row.account_number a

abbrev pub violates : (String → Bool) → String → String → Bool
violates is_blank org_id number = is_blank org_id || (not (str_eq number "") && is_blank number)

module _ (storage : Storage) where
  -- accountDao.GetOrCreateByIdentity. The insertion of the WITH clause runs whether or not the first SELECT
  -- finds a row, and does nothing on a conflict; the sequence moves on either way.
  unfoldable pub get_or_create_by_identity : String → String → Table → Result Account × Table
  unfolding matches
  get_or_create_by_identity org_id number t = elim storage.fault [
    | some x ↦ (err (wrapped "pgx error" x), t)
    | none ↦
        let row : Account = record {
          id = t.last_account + 1;
          org_id = org_id;
          account_number = null_string number;
        } in
        let found = filter (matches org_id number) t.accounts in
        if violates storage.is_blank org_id number
        then (
          err (wrapped "pgx error" (postgres "23514")),
          record t { last_account = t.last_account + 1 },
        )
        else if any (matches org_id number) t.accounts
        then (one_row (storage.choose found), record t { last_account = t.last_account + 1 })
        else (
          one_row (storage.choose (row ∷ [])),
          record { accounts = t.accounts ++ row ∷ []; last_account = t.last_account + 1 },
        )
  ]

  -- accountDao.Create. The sequence moves on when the row is refused, too.
  unfoldable pub create : String → Option String → Table → Result ℕ × Table
  create org_id number t = elim storage.fault [
    | some x ↦ (err (wrapped "pgx error" x), t)
    | none ↦
        let moved = record t { last_account = t.last_account + 1 } in
        let row : Account = record {
          id = t.last_account + 1;
          org_id = org_id;
          account_number = number;
        } in
        if storage.is_blank org_id || is_blank_number storage.is_blank number
        then (err (wrapped "pgx error" (postgres "23514")), moved)
        else if any (conflicts row) t.accounts
        then (err (wrapped "pgx error" (postgres "23505")), moved)
        else (ok row.id, record moved { accounts = t.accounts ++ row ∷ [] })
  ]

  abbrev queried : {A : Type 0} → Result A → Result A
  queried r = elim storage.fault [ none ↦ r | some x ↦ err (wrapped "pgx error" x) ]

  -- accountDao.GetById, GetByOrgId and List; the rows are held in the order of their ids.
  unfoldable pub get_by_id : ℕ → Table → Result Account
  get_by_id id t = queried (one_row (find (λ a. a.id == id) t.accounts))

  unfoldable pub get_by_org_id : String → Table → Result Account
  get_by_org_id org_id t = queried (one_row (find (λ a. str_eq a.org_id org_id) t.accounts))

  unfoldable pub list : ℕ → ℕ → Table → Result (List Account)
  list limit offset t = queried (ok (take limit (drop offset t.accounts)))
