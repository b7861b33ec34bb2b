-- ===== src/Dao.antt =====
-- The data access objects (internal/dao/pgx/reservation_pgx.go, internal/dao/pgx/pubkey_pgx.go,
-- internal/dao/pgx/account_pgx.go and internal/dao/dao_transaction.go): the effect of each SQL statement on the tables. The rows of a
-- table stand in the order of their ids, since an insertion appends the next value of the sequence.
pub mod Reservations
pub mod Pubkeys
pub mod Rows
pub mod Scoping
pub mod Lifetime
pub mod Accounts
pub mod UniqueAccounts
