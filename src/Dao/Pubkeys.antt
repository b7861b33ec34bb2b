-- ===== src/Dao/Pubkeys.antt =====
-- pubkeyDao of internal/dao/pgx/pubkey_pgx.go. Its validation of a key is a parameter.
use provisioning_backend.Common.{
  ℕ, ◌+◌, String, Bool, none, some, List, [], ◌∷◌, ◌++◌, take, drop, ◌==◌, ◌&&◌, str_eq, Option,
}
use provisioning_backend.Models.{Pubkey, PubkeyResource, Details}
use provisioning_backend.World.{
  Result, ok, M, annotate, read, query, statement, exec, one_row, ◌>>=◌,
}
use provisioning_backend.Dao.Rows.{find, filter, update, count, delete}

abbrev pub owned : ℕ → ℕ → Pubkey → Bool
owned account id k = (k.account_id == account) && (k.id == id)

-- `validate` is models.Validate and models.Transform of the new key.
unfoldable pub create : (Pubkey → Result Pubkey) → Pubkey → M Pubkey
create validate pubkey = do
  k ←
      annotate "pubkey validation"
        (read λ e. validate (record pubkey { account_id = e.account_id }))
  exec "pgx error" λ e n db.
      let row : Pubkey = record k { id = db.last_pubkey + 1 } in
      (row, record db { pubkeys = db.pubkeys ++ row ∷ []; last_pubkey = row.id })

unfoldable pub get_by_id : ℕ → M Pubkey
get_by_id id = query λ e db. one_row (find (owned e.account_id id) db.pubkeys)

unfoldable pub list : ℕ → ℕ → M (List Pubkey)
list limit offset =
    query
      λ e db. ok (take limit (drop offset (filter (λ k. k.account_id == e.account_id) db.pubkeys)))

abbrev cascade : {A : Type 0} → Option Pubkey → (A → Bool) → List A → List A
cascade none p rows = rows
cascade (some k) p rows = delete p rows

abbrev made_with : {D : Type 0} → ℕ → Details D → Bool
made_with id d = d.pubkey_id == id

-- Resources of the key, and the details of reservations that were made with it, are deleted by ON DELETE CASCADE.
unfoldable pub delete_pubkey : ℕ → M (Unit {0})
delete_pubkey id = statement λ e n db.
    let k = find (owned e.account_id id) db.pubkeys in
    (
      record db {
        pubkeys = delete (owned e.account_id id) db.pubkeys;
        resources = cascade k (λ r. r.pubkey_id == id) db.resources;
        aws_details = cascade k (made_with id) db.aws_details;
        azure_details = cascade k (made_with id) db.azure_details;
        gcp_details = cascade k (made_with id) db.gcp_details;
      },
      count (owned e.account_id id) db.pubkeys,
    )

-- Update, by a key that `validate` accepts.
unfoldable pub update_pubkey : (Pubkey → Result Pubkey) → Pubkey → M (Unit {0})
update_pubkey validate pubkey = do
  k ← annotate "pubkey validation" (read λ e. validate pubkey)
  statement λ e n db. (
    record db {
      pubkeys =
          update (owned e.account_id k.id)
            (λ row. record row {
              type = k.type;
              name = k.name;
              body = k.body;
              fingerprint = k.fingerprint;
              fingerprint_legacy = k.fingerprint_legacy;
            })
            db.pubkeys;
    },
    count (owned e.account_id k.id) db.pubkeys,
  )

unfoldable pub unscoped_delete_resource : ℕ → M (Unit {0})
unscoped_delete_resource id = statement λ e n db. (
  record db { resources = delete (λ r. r.id == id) db.resources },
  count (λ r. r.id == id) db.resources,
)

unfoldable pub unscoped_create_resource : PubkeyResource → M (Unit {0})
unscoped_create_resource pkr = exec "pgx error" λ e n db.
    let row : PubkeyResource = record pkr { id = db.last_resource + 1 } in
    (tt, record db { resources = db.resources ++ row ∷ []; last_resource = row.id })

unfoldable pub unscoped_get_resource_by_source_and_region : ℕ → String → String → M PubkeyResource
unscoped_get_resource_by_source_and_region pubkey_id source_id region = query λ e db. one_row (
    find (λ r. (r.pubkey_id == pubkey_id) && str_eq r.source_id source_id && str_eq r.region region)
      db.resources)

unfoldable pub unscoped_list_resources_by_pubkey_id : ℕ → M (List PubkeyResource)
unscoped_list_resources_by_pubkey_id id =
    query λ e db. ok (filter (λ r. r.pubkey_id == id) db.resources)
