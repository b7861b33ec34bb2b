-- ===== src/Examples/Responses.antt =====
-- A second reservation of AWS, stored and read back.
use provisioning_backend.Common.{◌+◌, ◌≡◌, []}
use provisioning_backend.Models.{Reservation, Details, AwsDetail}
use provisioning_backend.World.{ok, World}
use provisioning_backend.Dao.Reservations.{NewReservation, create_aws, get_aws_by_id}
use provisioning_backend.Services.Aws.{aws_details_of}
use provisioning_backend.Services.Responses.{new_aws_reservation_response}
use provisioning_backend.Services.Responses.Echo.{IsNumbered, echo, get_aws_by_id-create_aws}
use provisioning_backend.Examples.Setting.{sample_env, empty_world}
use provisioning_backend.Examples.Requests.{aws_request, sample_env-Works}

abbrev new : NewReservation
new = record { steps = 3; step_titles = [] }

abbrev no_details : World
no_details = record empty_world {
  state = record empty_world.state { db = record empty_world.db { aws_details = [] } };
}

abbrev one_stored : World
one_stored = (create_aws new (aws_details_of aws_request "first-") sample_env no_details).1

one_stored-IsNumbered : IsNumbered one_stored.db
one_stored-IsNumbered =
    let (_, _, _, _, _, _, numbered) =
      get_aws_by_id-create_aws sample_env sample_env-Works.fault new aws_request "first-" no_details
        (record { rows = tt; details = tt }) in
    numbered

get_aws_by_id-create_aws_example :
    let (created, w') =
      create_aws new (aws_details_of aws_request "second-") sample_env one_stored in
    (row : Reservation) × (read : Reservation × Details AwsDetail) × (created ≡ ok row)
    × (row.id ≡ one_stored.db.last_reservation + 1)
    × ((get_aws_by_id row.id sample_env w').0 ≡ ok read)
    × (new_aws_reservation_response read [] ≡ echo row.id "second-" aws_request)
    × IsNumbered w'.db
get_aws_by_id-create_aws_example =
    get_aws_by_id-create_aws sample_env sample_env-Works.fault new aws_request "second-" one_stored
      one_stored-IsNumbered
