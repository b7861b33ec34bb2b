-- ===== src/Examples/Accounts.antt =====
-- Identities and their accounts, on concrete requests.
use provisioning_backend.Common.{
  String, ◌≡◌, ◌↔◌, refl, inl, Option, none, some, List, [], ◌∷◌, str_eq, Bool, true, arith,
}
use provisioning_backend.World.{Result, ok}
use provisioning_backend.Dao.Accounts.{Account, Table, get_or_create_by_identity}
use provisioning_backend.Middleware.{Store, Identity, next, account_middleware, enforce_identity}
use provisioning_backend.Middleware.Accounts.{reading, account_middleware-shared}
use provisioning_backend.Dao.UniqueAccounts.{Stored, connected, get_or_create_by_identity-Stored}
use provisioning_backend.Middleware.Identities.{FallsBack, Admitted, enforce_identity-Admitted_iff}

abbrev first : List Account → Option Account
first [] = none
first (a ∷ rows) = some a

abbrev is_blank : String → Bool
is_blank s = str_eq s ""

abbrev table : Table
table = record {
  accounts = record { id = 1; org_id = "12"; account_number = none } ∷ [];
  last_account = 4;
}

abbrev store : Store
store = record { table = table; entries = [] }

account_middleware-first :
    (account_middleware (connected is_blank first) (reading (λ a. true) none none) "1" "23" store).0
    ≡ next 5
unfolding account_middleware
account_middleware-first = refl

-- Account 23 of organization 1 comes first; then account 3 of organization 12, whose row has the id 1, runs in the
-- account of the other.
account_middleware-shared_example :
    let redis = reading (λ a. true) none none in
    let s = (account_middleware (connected is_blank first) redis "1" "23" store).1 in
    account_middleware (connected is_blank first) redis "12" "3" s ≡ (next 5, s)
account_middleware-shared_example =
    account_middleware-shared (connected is_blank first) (λ a. true) none none "1" "23" "12" "3"
      store 5 (λ a. refl) refl account_middleware-first

get_or_create_by_identity-Stored_example :
    Stored "1" "23" table (get_or_create_by_identity (connected is_blank first) "1" "23" table)
get_or_create_by_identity-Stored_example =
    get_or_create_by_identity-Stored is_blank first "1" "23" table (λ a rows. (a, refl, inl refl))
      refl (λ _. refl) (((omega arith, tt)), ((tt, tt)))

abbrev user : Identity
user = record { type = "User"; account_number = ""; org_id = ""; internal_org_id = "7" }

abbrev decode : String → Result String
decode s = ok s

abbrev unmarshal : String → Result Identity
unmarshal s = ok user

enforce_identity-Admitted_iff_example :
    (enforce_identity decode unmarshal ("e30=" ∷ []) ≡ next (record user { org_id = "7" })) ↔ (
      (h : String) × (raw : String) × (sent : Identity) × ("e30=" ∷ [] ≡ h ∷ [])
      × (decode h ≡ ok raw)
      × (unmarshal raw ≡ ok sent)
      × FallsBack sent (record user { org_id = "7" })
      × Admitted (record user { org_id = "7" }))
enforce_identity-Admitted_iff_example =
    enforce_identity-Admitted_iff decode unmarshal ("e30=" ∷ []) (record user { org_id = "7" })
