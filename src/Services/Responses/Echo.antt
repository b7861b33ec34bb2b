-- ===== src/Services/Responses/Echo.antt =====
-- What is stored of a request for AWS, and what a later request for it is told: internal/dao/pgx/reservation_pgx.go
-- with internal/payloads/reservation_payload.go.
use Prim.Native.String
use provisioning_backend.Common.{
  ℕ, ◌+◌, ◌≤◌, ◌≡◌, refl, Bool, true, false, some, none, List, [], ◌∷◌, ◌++◌, All, All-append,
  String, arith,
}
use provisioning_backend.Models.{Reservation, aws, Details, AwsDetail}
use provisioning_backend.World.{
  ok, Db, World, Env, pure, check, call, attempt, annotate, statement, exec, query, ◌>>=◌,
}
use provisioning_backend.Dao.Rows.{find}
use provisioning_backend.Dao.Reservations.{
  NewReservation, create_aws, create_generic_reservation, with_transaction, finish_transaction,
  begin, new_row, with_reservation_id, get_aws_by_id, of_provider, details_of,
}
use provisioning_backend.Services.Requests.{AwsRequest}
use provisioning_backend.Services.Aws.{aws_details_of, region_or_default}
use provisioning_backend.Services.Responses.{AwsResponse, new_aws_reservation_response}

-- A row at the end is found, if none before it is.
find-append :
    {A : Type 0} (p : A → Bool) (rows : List A) (a : A)
    → All (λ r. p r ≡ false) rows
    → p a ≡ true
    → find p (rows ++ a ∷ []) ≡ some a
find-append p [] a h k = rw k refl
find-append p (r ∷ rows) a h k = rw h.0 (find-append p rows a h.1 k)

-- The ids of the tables are those that the sequence gave.
pub record IsNumbered (db : Db) : Type 0 where
  pub rows : All (λ r. r.id ≤ db.last_reservation) db.reservations
  pub details :
      All (λ (d : Details AwsDetail). d.reservation_id ≤ db.last_reservation) db.aws_details

rows_differ :
    (account last : ℕ) (rows : List Reservation)
    → All (λ r. r.id ≤ last) rows
    → All (λ r. of_provider aws account (last + 1) r ≡ false) rows
rows_differ account last [] h = tt
rows_differ account last (r ∷ rows) h =
    (let low = h.0 in ground arith, rows_differ account last rows h.1)

details_differ :
    (last : ℕ) (details : List (Details AwsDetail))
    → All (λ d. d.reservation_id ≤ last) details
    → All (λ d. details_of (last + 1) d ≡ false) details
details_differ last [] h = tt
details_differ last (d ∷ details) h =
    (let low = h.0 in ground arith, details_differ last details h.1)

weaker : (n : ℕ) (rows : List Reservation) → All (λ r. r.id ≤ n) rows → All (λ r. r.id ≤ n + 1) rows
weaker n [] h = tt
weaker n (r ∷ rows) h = (let low = h.0 in omega arith, weaker n rows h.1)

weaker_details :
    (n : ℕ) (details : List (Details AwsDetail))
    → All (λ d. d.reservation_id ≤ n) details
    → All (λ d. d.reservation_id ≤ n + 1) details
weaker_details n [] h = tt
weaker_details n (d ∷ details) h = (let low = h.0 in omega arith, weaker_details n details h.1)

-- What the response to a reading tells of a request.
abbrev pub echo : ℕ → String → AwsRequest → AwsResponse
echo id prefix payload = record {
  id = id;
  pubkey_id = payload.pubkey_id;
  source_id = payload.source_id;
  region = region_or_default payload.region;
  instance_type = payload.instance_type;
  amount = payload.amount;
  image_id = payload.image_id;
  launch_template_id = payload.launch_template_id;
  aws_reservation_id = "";
  name = String.◌++◌ prefix payload.name;
  power_off = payload.power_off;
  instances = [];
}

module _ (e : Env) (works : (n : ℕ) → e.fault n ≡ none) where
  stored :
      (new : NewReservation) (d : Details AwsDetail) (w : World)
      → let row = new_row aws new e (w.calls + 1) w.db in
        create_aws new d e w ≡ (
          ok row,
          record w {
            state = record w.state {
              db = record w.db {
                reservations = w.db.reservations ++ row ∷ [];
                last_reservation = row.id;
                aws_details = w.db.aws_details ++ with_reservation_id row.id d ∷ [];
              };
            };
            calls = w.calls + 1 + 1 + 1 + 1;
          },
        )
  unfolding attempt ◌>>=◌ pure create_aws with_transaction begin check call annotate
      create_generic_reservation exec statement finish_transaction
  stored new d w = rw (works w.calls) (
      rw (works (w.calls + 1), exec)
        (rw (works (w.calls + 1 + 1), statement) (rw (works (w.calls + 1 + 1 + 1)) refl)))

  read_back :
      (row : Reservation) (d : Details AwsDetail) (w : World)
      → find (of_provider aws e.account_id row.id) w.db.reservations ≡ some row
      → find (details_of row.id) w.db.aws_details ≡ some d
      → (get_aws_by_id row.id e w).0 ≡ ok (row, d)
  unfolding get_aws_by_id query
  read_back row d w h k = rw (works w.calls, query) (rw h (rw k refl))

  -- Where the ids of the tables are those that their sequence gave and the database answers: a reservation of AWS
  -- that was stored for a request is read back by its id, the next one, and the response repeats the request, with
  -- the default region for a blank one and the prefix before the name, no machine and no id of AWS yet. The ids
  -- stay those that the sequence gave.
  pub get_aws_by_id-create_aws :
      (new : NewReservation) (payload : AwsRequest) (prefix : String) (w : World)
      → IsNumbered w.db
      → let (created, w') = create_aws new (aws_details_of payload prefix) e w in
        (row : Reservation) × (read : Reservation × Details AwsDetail) × (created ≡ ok row)
        × (row.id ≡ w.db.last_reservation + 1)
        × ((get_aws_by_id row.id e w').0 ≡ ok read)
        × (new_aws_reservation_response read [] ≡ echo row.id prefix payload)
        × IsNumbered w'.db
  unfolding aws_details_of new_aws_reservation_response
  get_aws_by_id-create_aws new payload prefix w h =
      let d = aws_details_of payload prefix in
      let row = new_row aws new e (w.calls + 1) w.db in
      let last = w.db.last_reservation in
      let details = with_reservation_id row.id d in
      let found =
        find-append (of_provider aws e.account_id row.id) w.db.reservations row
          (rows_differ e.account_id last w.db.reservations h.rows) (ground arith) in
      let found_details =
        find-append (details_of row.id) w.db.aws_details details
          (details_differ last w.db.aws_details h.details) (ground arith) in
      rw (stored new d w) (
        row,
        (row, details),
        refl,
        refl,
        read_back row details _ found found_details,
        refl,
        record {
          rows =
              All-append _ w.db.reservations (row ∷ []) (weaker last w.db.reservations h.rows)
                (omega arith, tt);
          details =
              All-append _ w.db.aws_details (details ∷ [])
                (weaker_details last w.db.aws_details h.details) (omega arith, tt);
        },
      )
