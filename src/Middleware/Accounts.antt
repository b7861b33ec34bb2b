-- ===== src/Middleware/Accounts.antt =====
-- The account that a request runs in.
use Prim.Native.String
use provisioning_backend.Common.{
  ℕ, String, ◌≡◌, refl, sym, ap, Option, none, some, Bool, true, false, lookup-insert, eq_refl,
}
use provisioning_backend.Errors.{Error}
use provisioning_backend.World.{Result, ok, err}
use provisioning_backend.Dao.Accounts.{Account, Table, Storage, get_or_create_by_identity}
use provisioning_backend.Middleware.{
  Redis, Entries, Found, hit, miss, failed, Store, Passage, next, find_account, set_account, cached,
  fetched, by_cache, account_middleware,
}

-- A Redis that is in use, answers reads, and whose entries have not expired; writes may fail.
abbrev pub reading : (Account → Bool) → Option Error → Option Error → Redis
reading decodes encode_fault set_fault = record {
  enabled = true;
  get_fault = none;
  expired = λ k. false;
  decodes = decodes;
  encode_fault = encode_fault;
  set_fault = set_fault;
}

module _ (decodes : Account → Bool) (total : (a : Account) → decodes a ≡ true) where
  -- An entry that was set is found.
  find_account-set_account :
      (encode_fault set_fault : Option Error) (k : String) (a : Account) (entries : Entries)
      → let redis = reading decodes encode_fault set_fault in
        (set_account redis k a entries).0 ≡ none
        → find_account redis k (set_account redis k a entries).1 ≡ hit a
  unfolding find_account set_account
  find_account-set_account none none k a entries e =
      rw
        (
          lookup-insert (String.◌++◌ "account" k) (String.◌++◌ "account" k) a entries,
          eq_refl (String.◌++◌ "account" k),
          total a,
        )
        refl
  find_account-set_account none (some x) k a entries e = absurd (cc)
  find_account-set_account (some x) _ k a entries e = absurd (cc)

-- Let Redis be in use as the cache and answer reads, let accounts decode, and let no entry have expired. After a
-- request went through, every request whose organization and account number make the same text runs in the same
-- account, and neither the table nor the cache is changed: a repeated request, and one of another organization, too.
pub account_middleware-shared :
    (storage : Storage) (decodes : Account → Bool) (encode_fault set_fault : Option Error)
    (org_id number org_id' number' : String) (s : Store) (id : ℕ)
    → ((a : Account) → decodes a ≡ true)
    → String.◌++◌ org_id number ≡ String.◌++◌ org_id' number'
    → let redis = reading decodes encode_fault set_fault in
      (account_middleware storage redis org_id number s).0 ≡ next id
      → account_middleware storage redis org_id' number'
          (account_middleware storage redis org_id number s).1
        ≡ (next id, (account_middleware storage redis org_id number s).1)
unfolding account_middleware
account_middleware-shared storage decodes encode_fault set_fault org_id number org_id' number' s id
      total same e =
    let redis = reading decodes encode_fault set_fault in
    rw (sym same) (by_found (find_account redis (String.◌++◌ org_id number) s.entries) refl e)
  where
    redis : Redis
    redis = reading decodes encode_fault set_fault

    k : String
    k = String.◌++◌ org_id number

    Again : Passage ℕ × Store → Type 0
    Again (p, s') =
        p ≡ next id
        → by_cache storage redis org_id' number' (find_account redis k s'.entries) s'
          ≡ (next id, s')

    Hit : ℕ → Store → Type 0
    Hit i s' = (a : Account) × (find_account redis k s'.entries ≡ hit a) × (a.id ≡ i)

    by_hit : (i : ℕ) (s' : Store) → Hit i s' → Again (next i, s')
    by_hit i s' (a, f, j) e = rw f (rw j (ap (λ p. (p, s')) e))

    by_set :
        (a : Account) (t : Table) (r : Option Error × Entries)
        → set_account redis k a s.entries ≡ r
        → Again (cached storage redis k a t r)
    by_set a t (none, entries) q e =
        by_hit a.id (record { table = t; entries = entries })
          (
            a,
            rw q at (
                find_account-set_account decodes total encode_fault set_fault k a s.entries
                  (ap (λ r. r.0) q)),
            refl,
          )
          e
    by_set a t (some x, entries) q e = absurd (cc)

    by_fetch : (r : Result Account × Table) → Again (fetched storage redis k r s.entries)
    by_fetch (ok a, t) e = by_set a t (set_account redis k a s.entries) refl e
    by_fetch (err x, t) e = absurd (cc)

    by_found :
        (f : Found)
        → find_account redis k s.entries ≡ f
        → Again (by_cache storage redis org_id number f s)
    by_found (hit a) f e = by_hit a.id s (a, f, refl) e
    by_found miss f e = by_fetch (get_or_create_by_identity storage org_id number s.table) e
    by_found (failed x) f e = absurd (cc)
