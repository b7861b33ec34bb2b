-- ===== src/Middleware.antt =====
-- What stands before the handlers of a request: EnforceIdentity (internal/middleware/enforce_identity.go),
-- AccountMiddleware (account.go) over Dao/Accounts and the cache (internal/cache/redis.go), and ETagMiddleware
-- (etag_middleware.go). Base64, JSON, Redis, gob
-- and hashes are parameters.
pub mod Accounts
pub mod Identities
use Prim.Native.String
use provisioning_backend.Common.{
  ℕ, ◌+◌, String, Bool, true, false, not, ◌&&◌, ◌||◌, Option, none, some, List, [], ◌∷◌, ◌++◌,
  lookup, insert, str_eq, if◌then◌else◌,
}
use provisioning_backend.Errors.{Error, wrapped}
use provisioning_backend.World.{Result, ok, err}
use provisioning_backend.Dao.Accounts.{Account, Table, Storage, get_or_create_by_identity}

-- The cache: whether Redis is in use, its errors, whether an entry can be decoded, and whether the entry of a
-- key has expired, Cache.Expiration after it was set, when it is read.
pub record Redis : Type 0 where
  pub enabled : Bool
  pub get_fault : Option Error
  pub expired : String → Bool
  pub decodes : Account → Bool
  pub encode_fault : Option Error
  pub set_fault : Option Error

abbrev pub Entries : Type 0
Entries = List (String × Account)

-- What Find comes to: a hit, ErrNotFound, or another error.
pub data Found : Type 0 where
  hit : Account → Found
  miss : Found
  failed : Error → Found

module _ (redis : Redis) where
  abbrev decoded : Option Account → Found
  decoded none = miss
  decoded (some a) = if redis.decodes a then hit a else miss

  -- Find, for an account: the prefix is CacheKeyName.
  unfoldable pub find_account : String → Entries → Found
  unfolding lookup
  find_account k entries = if not redis.enabled then miss else elim redis.get_fault [
    | some x ↦ failed (wrapped "redis get error" x)
    | none ↦
        let key = String.◌++◌ "account" k in
        decoded (if redis.expired key then none else lookup key entries)
  ]

  -- Set: nil is `none`.
  unfoldable pub set_account : String → Account → Entries → Option Error × Entries
  unfolding insert
  set_account k a entries = if not redis.enabled then (none, entries) else elim redis.encode_fault [
    | some x ↦ (some (wrapped "unable to encode for Redis cache" x), entries)
    | none ↦ elim redis.set_fault [
      | some x ↦ (some (wrapped "redis set error" x), entries)
      | none ↦ (none, insert (String.◌++◌ "account" k) a entries)
    ]
  ]

-- The next handler runs with a value in its context, or the request is answered with a status.
pub data Passage (A : Type 0) : Type 0 where
  next : A → Passage A
  answered : ℕ → Passage A

pub record Store : Type 0 where
  pub table : Table
  pub entries : Entries

module _ (storage : Storage) (redis : Redis) where
  abbrev pub cached : String → Account → Table → Option Error × Entries → Passage ℕ × Store
  cached k a t (none, entries) = (next a.id, record { table = t; entries = entries })
  cached k a t (some x, entries) = (answered 500, record { table = t; entries = entries })

  abbrev pub fetched : String → Result Account × Table → Entries → Passage ℕ × Store
  fetched k (ok a, t) entries = cached k a t (set_account redis k a entries)
  fetched k (err x, t) entries = (answered 500, record { table = t; entries = entries })

  abbrev pub by_cache : String → String → Found → Store → Passage ℕ × Store
  by_cache org_id number (hit a) s = (next a.id, s)
  by_cache org_id number miss s =
      fetched (String.◌++◌ org_id number) (get_or_create_by_identity storage org_id number s.table)
        s.entries
  by_cache org_id number (failed x) s = (answered 500, s)

  -- AccountMiddleware, for the organization and account number of the identity: the id of the account that
  -- the next handler runs in.
  unfoldable pub account_middleware : String → String → Store → Passage ℕ × Store
  unfolding find_account set_account get_or_create_by_identity
  account_middleware org_id number s =
      by_cache org_id number (find_account redis (String.◌++◌ org_id number) s.entries) s

-- identity.XRHID, as far as it is read.
pub record Identity : Type 0 where
  pub type : String
  pub account_number : String
  pub org_id : String
  pub internal_org_id : String

-- topLevelOrgIDFallback
unfoldable pub top_level_org_id_fallback : Identity → Identity
top_level_org_id_fallback id =
    if str_eq id.org_id "" && not (str_eq id.internal_org_id "")
    then record id { org_id = id.internal_org_id }
    else id

-- checkHeader: nil is true.
unfoldable pub check_header : Identity → Bool
check_header id =
    if (str_eq id.type "Associate" || str_eq id.type "X509") && str_eq id.account_number ""
    then true
    else if str_eq id.org_id "" && str_eq id.internal_org_id ""
    then false
    else not (str_eq id.type "")

module _ (decode : String → Result String) (unmarshal : String → Result Identity) where
  abbrev pub checked : Identity → Passage Identity
  checked id = if check_header id then next id else answered 403

  abbrev pub parsed : Result Identity → Passage Identity
  parsed (err x) = answered 403
  parsed (ok id) = checked (top_level_org_id_fallback id)

  abbrev pub read_header : Result String → Passage Identity
  read_header (err x) = answered 403
  read_header (ok raw) = parsed (unmarshal raw)

  -- EnforceIdentity, on the values of the header X-Rh-Identity: the identity in the context of the next
  -- handler.
  unfoldable pub enforce_identity : List String → Passage Identity
  unfolding check_header top_level_org_id_fallback
  enforce_identity (h ∷ []) = read_header (decode h)
  enforce_identity _ = answered 403

-- ETag; `max_age` is Expiration in whole seconds, as a decimal number.
pub record ETag : Type 0 where
  pub name : String
  pub value : String
  pub max_age : String

-- ETag.Header
unfoldable pub etag_header : ETag → String
etag_header etag =
    String.◌++◌ "\"pb-" (String.◌++◌ etag.name (String.◌++◌ "-" (String.◌++◌ etag.value "\"")))

-- ETag.CacheControlHeader
unfoldable pub cache_control_header : ETag → String
cache_control_header etag = String.◌++◌ "max-age=" etag.max_age

abbrev pub etag_headers : ETag → List (String × String)
etag_headers etag = ("ETag", etag_header etag) ∷ ("Cache-Control", cache_control_header etag) ∷ []

-- ETagMiddleware, on the header If-None-Match, blank if there is none: the headers set and how it goes on, or
-- `none` for the panic on an empty tag. `contains` is strings.Contains.
unfoldable pub etag_middleware :
    (String → String → Bool) → ETag → String → Option (List (String × String) × Passage (Unit {0}))
unfolding etag_header cache_control_header
etag_middleware contains etag match =
    if str_eq etag.value ""
    then none
    else if not (str_eq match "") && contains match etag.value
    then some (etag_headers etag, answered 304)
    else some (etag_headers etag, next tt)
