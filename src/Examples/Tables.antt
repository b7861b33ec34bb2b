-- ===== src/Examples/Tables.antt =====
-- Reads of a table with one reservation, and positions in a text.
use provisioning_backend.Common.{◌≤◌, ◌≡◌, ◌+◌, refl, [], ◌∷◌, All, length, none, arith}
use provisioning_backend.Models.{aws}
use provisioning_backend.World.{query, ok}
use provisioning_backend.Dao.Reservations.{get_by_id, list, get_aws_by_id, cleanup}
use provisioning_backend.Dao.Scoping.{get_by_id-list-scoped}
use provisioning_backend.Dao.Lifetime.{get_aws_by_id-cleanup}
use provisioning_backend.Errors.Positions.{extract_error_line}
use provisioning_backend.Errors.Positions.Located.{At, extract_error_line-At}
use provisioning_backend.Examples.Setting.{sample_env, sample_row, waiting, aws_row_details}

get_by_id-list-scoped_example :
    ((sample_row aws 3).account_id ≡ 7)
    × ((sample_row aws 3).id ≡ 1)
    × (length (sample_row aws 3 ∷ []) ≤ 10)
    × All (λ x. x.account_id ≡ 7) (sample_row aws 3 ∷ [])
unfolding get_by_id list query
get_by_id-list-scoped_example =
    get_by_id-list-scoped sample_env (waiting aws 3) 1 10 0 (sample_row aws 3)
      (sample_row aws 3 ∷ []) refl refl

get_aws_by_id-cleanup_example :
    let (cleaned, w') = cleanup 1000 sample_env (waiting aws 3) in
    (cleaned ≡ ok tt)
    × All (λ x. 1000 ≤ x.created_at + 1000) w'.db.reservations
    × ((get_aws_by_id 1 sample_env w').0 ≡ ok (sample_row aws 3, aws_row_details))
unfolding get_aws_by_id query
get_aws_by_id-cleanup_example =
    get_aws_by_id-cleanup sample_env (waiting aws 3) 1000 1 (sample_row aws 3) aws_row_details
      (λ n. refl) refl (omega arith)

-- "a", newline, "bc": position 4 is the second column of the second line.
extract_error_line-At_example :
    let (e, x) = extract_error_line (97 ∷ 10 ∷ 98 ∷ 99 ∷ []) 4 in
    (x ≡ none) × At 1 (97 ∷ 10 ∷ 98 ∷ 99 ∷ []) 4 e.line_num e.column_num e.text
extract_error_line-At_example = extract_error_line-At (97 ∷ 10 ∷ 98 ∷ 99 ∷ []) 4 (omega arith)

extract_error_line-lines :
    (extract_error_line (97 ∷ 10 ∷ 98 ∷ 99 ∷ []) 4).0
    ≡ record { line_num = 2; column_num = 2; text = 98 ∷ 99 ∷ [] }
unfolding extract_error_line
extract_error_line-lines = refl
