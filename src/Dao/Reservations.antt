-- ===== src/Dao/Reservations.antt =====
-- reservationDao of internal/dao/pgx/reservation_pgx.go, and WithTransaction of
-- internal/dao/dao_transaction.go. The statements of a creation go to the pool and not to the
-- transaction, so a rollback undoes none of them.
use provisioning_backend.Common.{
  ℕ, ◌+◌, String, Bool, true, false, Option, none, some, List, [], ◌∷◌, ◌++◌, take, drop, ◌==◌,
  ◌&&◌, str_eq, not, any, ltb,
}
use provisioning_backend.Errors.{Error}
use provisioning_backend.Models.{
  Reservation, Details, AwsDetail, AzureDetail, GcpDetail, ReservationInstance, InstanceDetail,
  InstanceDescription, ProviderType, noop, aws, azure, gcp, same_provider,
}
use provisioning_backend.World.{
  Result, ok, err, Db, Env, M, pure, lift, check, attempt, annotate, query, statement, exec,
  one_row, ◌>>=◌, ◌>>◌, ignore,
}
use provisioning_backend.Dao.Rows.{find, filter, update, count, has_id, scoped}

-- rollback and commit may fail as any call of the database may
unfoldable pub begin : M (Unit {0})
begin = check (λ e n. e.fault n)

unfoldable pub finish_transaction : {A : Type 0} → Result A → M A
unfolding begin
finish_transaction (ok a) = do annotate "db commit error" begin; pure a
finish_transaction (err x) = do ignore begin; annotate "tx error" (lift (err x))

unfoldable pub with_transaction : {A : Type 0} → M A → M A
unfolding begin finish_transaction
with_transaction fn = do annotate "tx error" begin; r ← attempt fn; finish_transaction r

-- What the caller fills in before a creation.
pub record NewReservation : Type 0 where
  pub steps : ℕ
  pub step_titles : List String

abbrev pub new_row : ProviderType → NewReservation → Env → ℕ → Db → Reservation
new_row provider new e n db = record {
  id = db.last_reservation + 1;
  provider = provider;
  account_id = e.account_id;
  created_at = e.now n;
  steps = new.steps;
  step_titles = new.step_titles;
  step = 0;
  status = "Created";
  error = none;
  finished_at = none;
  success = none;
}

unfoldable pub create_generic_reservation : ProviderType → NewReservation → M Reservation
create_generic_reservation provider new = exec "failed to create reservation record" λ e n db.
    let row = new_row provider new e n db in
    (row, record db { reservations = db.reservations ++ row ∷ []; last_reservation = row.id })

unfoldable pub create_noop : NewReservation → M Reservation
unfolding create_generic_reservation
create_noop new =
    annotate "failed to create reservation record" (create_generic_reservation noop new)

-- The details that a request gives, of a reservation that has no id yet.
abbrev pub with_reservation_id : {D : Type 0} → ℕ → Details D → Details D
with_reservation_id id d = record d { reservation_id = id }

unfoldable pub create_aws : NewReservation → Details AwsDetail → M Reservation
unfolding create_generic_reservation with_transaction
create_aws new details = annotate "pgx tx error" (
    with_transaction (do
      row ← create_generic_reservation aws new
      statement λ e n db.
          (record db { aws_details = db.aws_details ++ with_reservation_id row.id details ∷ [] }, 1)
      pure row))

unfoldable pub create_azure : NewReservation → Details AzureDetail → M Reservation
unfolding create_generic_reservation with_transaction
create_azure new details = annotate "pgx tx error" (
    with_transaction (do
      row ← create_generic_reservation azure new
      statement λ e n db. (
        record db { azure_details = db.azure_details ++ with_reservation_id row.id details ∷ [] },
        1,
      )
      pure row))

unfoldable pub create_gcp : NewReservation → Details GcpDetail → M Reservation
unfolding create_generic_reservation with_transaction
create_gcp new details = annotate "pgx tx error" (
    with_transaction (do
      row ← create_generic_reservation gcp new
      statement λ e n db.
          (record db { gcp_details = db.gcp_details ++ with_reservation_id row.id details ∷ [] }, 1)
      pure row))

unfoldable pub create_instance : ReservationInstance → M (Unit {0})
create_instance instance_row =
    statement λ e n db. (record db { instances = db.instances ++ instance_row ∷ [] }, 1)

abbrev of_instance : ℕ → String → ReservationInstance → Bool
of_instance reservation_id instance_id i =
    (i.reservation_id == reservation_id) && str_eq i.instance_id instance_id

unfoldable pub update_reservation_instance : ℕ → InstanceDescription → M (Unit {0})
update_reservation_instance reservation_id d = statement λ e n db.
    let new_detail : InstanceDetail = record {
      public_dns = d.public_dns;
      public_ipv4 = d.public_ipv4;
    } in
    (
      record db {
        instances =
            update (of_instance reservation_id d.id) (λ i. record i { detail = new_detail })
              db.instances;
      },
      count (of_instance reservation_id d.id) db.instances,
    )

unfoldable pub get_by_id : ℕ → M Reservation
get_by_id id = query λ e db. one_row (find (scoped e.account_id id) db.reservations)

-- The join of a reservation with the row of its details.
abbrev pub joined :
    {D : Type 0} → Option Reservation → Option (Details D) → Option (Reservation × Details D)
joined (some r) (some d) = some (r, d)
joined r d = none

abbrev pub of_provider : ProviderType → ℕ → ℕ → Reservation → Bool
of_provider provider account id r = scoped account id r && same_provider r.provider provider

abbrev pub details_of : {D : Type 0} → ℕ → Details D → Bool
details_of id d = d.reservation_id == id

unfoldable pub get_aws_by_id : ℕ → M (Reservation × Details AwsDetail)
get_aws_by_id id = query λ e db. one_row (
    joined (find (of_provider aws e.account_id id) db.reservations)
      (find (details_of id) db.aws_details))

unfoldable pub get_azure_by_id : ℕ → M (Reservation × Details AzureDetail)
get_azure_by_id id = query λ e db. one_row (
    joined (find (of_provider azure e.account_id id) db.reservations)
      (find (details_of id) db.azure_details))

unfoldable pub get_gcp_by_id : ℕ → M (Reservation × Details GcpDetail)
get_gcp_by_id id = query λ e db. one_row (
    joined (find (of_provider gcp e.account_id id) db.reservations)
      (find (details_of id) db.gcp_details))

unfoldable pub list : ℕ → ℕ → M (List Reservation)
list limit offset = query λ e db.
    ok (take limit (drop offset (filter (λ r. r.account_id == e.account_id) db.reservations)))

-- The instances of a reservation, none if another account owns the reservation.
abbrev instances_of : ℕ → Option Reservation → List ReservationInstance → List ReservationInstance
instances_of id none rows = []
instances_of id (some r) rows = filter (λ i. i.reservation_id == id) rows

unfoldable pub list_instances : ℕ → M (List ReservationInstance)
list_instances id =
    query λ e db. ok (instances_of id (find (scoped e.account_id id) db.reservations) db.instances)

-- UPDATE reservations SET f WHERE id = $1: every modification of a reservation.
unfoldable pub update_reservation : (Env → ℕ → Reservation → Reservation) → ℕ → M (Unit {0})
update_reservation f id = statement λ e n db. (
  record db { reservations = update (has_id id) (f e n) db.reservations },
  count (has_id id) db.reservations,
)

unfoldable pub update_status : ℕ → String → ℕ → M (Unit {0})
unfolding update_reservation
update_status id status add_steps =
    update_reservation (λ e n r. record r { status = status; step = r.step + add_steps }) id

unfoldable pub finish_with_success : ℕ → M (Unit {0})
unfolding update_reservation
finish_with_success id =
    update_reservation (λ e n r. record r { success = some true; finished_at = some (e.now n) }) id

unfoldable pub finish_with_error : ℕ → Error → M (Unit {0})
unfolding update_reservation
finish_with_error id job_error =
    update_reservation
      (λ e n r. record r {
        success = some false;
        error = some job_error;
        finished_at = some (e.now n);
      })
      id

unfoldable pub unscoped_update_aws_detail : ℕ → AwsDetail → M (Unit {0})
unscoped_update_aws_detail id aws_detail = statement λ e n db. (
  record db {
    aws_details = update (details_of id) (λ d. record d { detail = aws_detail }) db.aws_details;
  },
  count (details_of id) db.aws_details,
)

unfoldable pub update_reservation_id_for_aws : ℕ → String → M (Unit {0})
update_reservation_id_for_aws id aws_reservation_id = statement λ e n db. (
  record db {
    aws_details =
        update (details_of id) (λ d. record d { cloud_id = some aws_reservation_id })
          db.aws_details;
  },
  count (details_of id) db.aws_details,
)

unfoldable pub update_operation_name_for_gcp : ℕ → String → M (Unit {0})
update_operation_name_for_gcp id gcp_operation_name = statement λ e n db. (
  record db {
    gcp_details =
        update (details_of id) (λ d. record d { cloud_id = some gcp_operation_name })
          db.gcp_details;
  },
  count (details_of id) db.gcp_details,
)

-- Whether the table still has the reservation: the details and instances of another go by ON DELETE CASCADE.
abbrev pub remaining : ℕ → List Reservation → Bool
remaining id rows = any (has_id id) rows

-- DELETE FROM reservations WHERE p
abbrev pub delete_where : (Reservation → Bool) → Db → Db
delete_where p db =
    let rows = filter (λ r. not (p r)) db.reservations in
    record db {
      reservations = rows;
      aws_details = filter (λ d. remaining d.reservation_id rows) db.aws_details;
      azure_details = filter (λ d. remaining d.reservation_id rows) db.azure_details;
      gcp_details = filter (λ d. remaining d.reservation_id rows) db.gcp_details;
      instances = filter (λ i. remaining i.reservation_id rows) db.instances;
    }

unfoldable pub delete_reservation : ℕ → M (Unit {0})
delete_reservation id =
    statement λ e n db. (delete_where (has_id id) db, count (has_id id) db.reservations)

-- Cleanup: created_at < now() - lifetime.
unfoldable pub cleanup : ℕ → M (Unit {0})
cleanup lifetime =
    exec "pgx error" λ e n db. (tt, delete_where (λ r. ltb (r.created_at + lifetime) (e.now n)) db)
