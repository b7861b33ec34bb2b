-- ===== src/Services/Noop.antt =====
-- CreateNoopReservation of internal/services/noop_reservation_service.go.
use provisioning_backend.Common.{ℕ, false, [], ◌∷◌}
use provisioning_backend.Models.{Job, noop_args}
use provisioning_backend.World.{M, gets, ignore, ◌>>=◌, ◌>>◌}
use provisioning_backend.Dao.Reservations
use provisioning_backend.Services.Render.{or_render, render, enqueue}

abbrev noop_job : ℕ → ℕ → Job
noop_job account_id reservation_id = record {
  account_id = account_id;
  args = noop_args (record { reservation_id = reservation_id; fail = false });
}

unfoldable pub create_noop_reservation : M (Unit {0})
create_noop_reservation = ignore (do
  account_id ← gets λ e w. e.account_id
  row ←
      or_render (λ x. 500)
        (Reservations.create_noop (record { steps = 1; step_titles = "A test step" ∷ [] }))
  or_render (λ x. 500) (enqueue (noop_job account_id row.id))
  render)
