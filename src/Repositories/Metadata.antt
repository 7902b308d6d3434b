-- ===== src/Repositories/Metadata.antt =====
-- src/repositories/index_metadata.rs.
use fossil_headers_db.Prelude.{
  ℕ, ℤ, Bool, false, List, [], ◌∷◌, ◌++◌, map, Option, none, some, not, ◌==◌, length, if◌then◌else◌,
}
use fossil_headers_db.Result.{Result, ok, err, is_ok}
use fossil_headers_db.Text.{text}
use fossil_headers_db.Errors.{Report, sqlx, message, SqlxError, row_not_found}
use fossil_headers_db.Database.Rows.{IndexMetadataDto, Tables}
use fossil_headers_db.Database.Action.{
  Action, Env, ◌>>=◌, pure, raise, attempt, map_fault, query, execute, execute_pool,
}

-- `fetch_one`, of the rows of a query.
unfoldable pub first_row : {A : Type 0} → List A → Result SqlxError A
first_row [] = err row_not_found
first_row (row ∷ rows) = ok row

-- The inner `match` on the driver's error.
unfoldable pub found :
    Result SqlxError (Result SqlxError IndexMetadataDto) → Result Report (Option IndexMetadataDto)
found (ok (ok row)) = ok (some row)
found (ok (err row_not_found)) = ok none
found (ok (err e)) = err (sqlx e)
found (err row_not_found) = ok none
found (err e) = err (sqlx e)

-- An `UPDATE index_metadata SET …` with no condition.
unfoldable pub update_metadata : (IndexMetadataDto → IndexMetadataDto) → Tables → Tables
update_metadata f t = record t { index_metadata = map f t.index_metadata }

abbrev pub with_latest : ℤ → ℕ → IndexMetadataDto → IndexMetadataDto
with_latest n now m = record m { current_latest_block_number = n; updated_at = now }

abbrev pub with_backfilling : Bool → ℕ → IndexMetadataDto → IndexMetadataDto
with_backfilling b now m = record m { is_backfilling = b; updated_at = now }

abbrev pub with_backfilling_block : ℤ → ℕ → IndexMetadataDto → IndexMetadataDto
with_backfilling_block n now m = record m { backfilling_block_number = some n; updated_at = now }

abbrev pub with_status : ℤ → ℤ → Bool → ℕ → IndexMetadataDto → IndexMetadataDto
with_status latest starting b now m = record m {
  current_latest_block_number = latest;
  indexing_starting_block_number = starting;
  is_backfilling = b;
  updated_at = now;
}

-- The statements of `set_initial_indexing_status`, with the number of rows that they affect.
unfoldable pub update_status : ℤ → ℤ → Bool → ℕ → ℤ → Tables → ℕ × Tables
unfolding update_metadata
update_status latest starting b now id t =
    (length t.index_metadata, update_metadata (with_status latest starting b now) t)

unfoldable pub insert_status : ℤ → ℤ → Bool → ℕ → ℤ → Tables → ℕ × Tables
insert_status latest starting b now id t = (
  1,
  record t {
    index_metadata =
        t.index_metadata
        ++ (record {
          id = id;
          current_latest_block_number = latest;
          indexing_starting_block_number = starting;
          is_backfilling = b;
          updated_at = now;
          backfilling_block_number = none;
        })
          ∷ [];
  },
)

-- `result.is_ok()`, where a row that is missing is an error too.
abbrev pub exists : Result SqlxError Bool → Bool
exists (ok b) = b
exists (err e) = false

module _ (env : Env) where
  unfoldable pub get_index_metadata : Action Report (Option IndexMetadataDto)
  unfolding first_row found
  get_index_metadata w =
      let (result, w') = query env (λ t. first_row t.index_metadata) w in (found result, w')

  unfoldable pub set_is_backfilling : Bool → Action Report (Unit {0})
  unfolding update_metadata
  set_is_backfilling b =
      map_fault sqlx (execute env (λ now. update_metadata (with_backfilling b now)))

  unfoldable pub update_initial_status : ℤ → ℤ → Bool → Action Report (Unit {0})
  unfolding update_status
  update_initial_status latest starting is_backfilling = do
    affected ← map_fault sqlx (execute_pool env (update_status latest starting is_backfilling))
    if not (affected == 1)
        then raise (message (text "Failed to update initial indexing status"))
        else pure tt

  unfoldable pub insert_initial_status : ℤ → ℤ → Bool → Action Report (Unit {0})
  unfolding insert_status
  insert_initial_status latest starting is_backfilling = do
    affected ← map_fault sqlx (execute_pool env (insert_status latest starting is_backfilling))
    if not (affected == 1)
        then raise (message (text "Failed to insert initial indexing status"))
        else pure tt

  unfoldable pub set_initial_indexing_status : ℤ → ℤ → Bool → Action Report (Unit {0})
  unfolding first_row update_initial_status insert_initial_status
  set_initial_indexing_status latest starting is_backfilling = do
    result ← attempt (query env (λ t. is_ok (first_row t.index_metadata)))
    if exists result
        then update_initial_status latest starting is_backfilling
        else insert_initial_status latest starting is_backfilling

  unfoldable pub update_latest_quick_index_block_number_query : ℤ → Action Report (Unit {0})
  unfolding update_metadata
  update_latest_quick_index_block_number_query n =
      map_fault sqlx (execute env (λ now. update_metadata (with_latest n now)))

  unfoldable pub update_backfilling_block_number_query : ℤ → Action Report (Unit {0})
  unfolding update_metadata
  update_backfilling_block_number_query n =
      map_fault sqlx (execute env (λ now. update_metadata (with_backfilling_block n now)))
