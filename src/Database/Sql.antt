-- ===== src/Database/Sql.antt =====
-- The clauses of the queries of src/db/mod.rs, over the rows of a query as a list.
use fossil_headers_db.Prelude.{
  ℕ, zero, suc, ◌+◌, ℤ, pos, leb_ℤ, eqb_ℤ, min_ℤ, max_ℤ, ◌≡◌, refl, true, List, [], ◌∷◌, map,
  Option, none, some, if◌then◌else◌,
}
use fossil_headers_db.Prelude.Machine.{sub_i64}

module _ {A : Type 0} (key : A → ℤ) where
  unfoldable pub insert_by : A → List A → List A
  insert_by x [] = x ∷ []
  insert_by x (y ∷ ys) =
      let rest = insert_by x ys in if leb_ℤ (key x) (key y) then x ∷ y ∷ ys else y ∷ rest

  -- `ORDER BY`, ascending.
  unfoldable pub order_by : List A → List A
  unfolding insert_by
  order_by [] = []
  order_by (x ∷ xs) = insert_by x (order_by xs)

  abbrev pub IsOrdered : List A → Type 0
  IsOrdered [] = Unit {0}
  IsOrdered (x ∷ []) = Unit {0}
  IsOrdered (x ∷ y ∷ ys) = (leb_ℤ (key x) (key y) ≡ true) × IsOrdered (y ∷ ys)

  -- A list in order is left as it is.
  pub order_by-IsOrdered : (xs : List A) → IsOrdered xs → order_by xs ≡ xs
  unfolding order_by
  order_by-IsOrdered [] o = refl
  order_by-IsOrdered (x ∷ []) o = refl
  order_by-IsOrdered (x ∷ y ∷ ys) (first, o) = rw (order_by-IsOrdered (y ∷ ys) o, first) refl

-- `LIMIT 1` without `ORDER BY`: which row is returned is the server's choice. It is given as a
-- position, and the last row is returned where there are fewer.
unfoldable pub limit_one : {A : Type 0} → ℕ → List A → Option A
limit_one position [] = none
limit_one position (x ∷ []) = some x
limit_one zero (x ∷ y ∷ ys) = some x
limit_one (suc position) (x ∷ y ∷ ys) = limit_one position (y ∷ ys)

-- Rows `(n, n - ROW_NUMBER())`, numbered from the given one on.
unfoldable pub number_rows : ℕ → List ℤ → List (ℤ × ℤ)
unfolding sub_i64
number_rows row_number [] = []
number_rows row_number (n ∷ ns) = (n, sub_i64 n (pos row_number)) ∷ number_rows (row_number + 1) ns

-- `SELECT n, n - ROW_NUMBER() OVER (ORDER BY n) AS grp`.
unfoldable pub gap_groups : List ℤ → List (ℤ × ℤ)
unfolding order_by number_rows
gap_groups ns = number_rows 1 (order_by {A = ℤ} (λ n. n) ns)

-- A row joins the group in front if it has its key: `(grp, MIN(n), MAX(n))`.
unfoldable pub join_group : ℤ × ℤ → List (ℤ × ℤ × ℤ) → List (ℤ × ℤ × ℤ)
join_group (n, grp) [] = (grp, n, n) ∷ []
join_group (n, grp) ((key, least, greatest) ∷ groups) =
    if eqb_ℤ grp key
    then (key, min_ℤ n least, max_ℤ n greatest) ∷ groups
    else (grp, n, n) ∷ (key, least, greatest) ∷ groups

unfoldable pub join_groups : List (ℤ × ℤ) → List (ℤ × ℤ × ℤ)
unfolding join_group
join_groups [] = []
join_groups (row ∷ rows) = join_group row (join_groups rows)

-- `GROUP BY grp`: the rows with one key are brought side by side, and each such run is a group.
unfoldable pub group_by_grp : List (ℤ × ℤ) → List (ℤ × ℤ × ℤ)
unfolding order_by join_groups
group_by_grp rows = join_groups (order_by {A = ℤ × ℤ} (λ r. r.1) rows)

abbrev pub range_of_group : ℤ × ℤ × ℤ → ℤ × ℤ
range_of_group (grp, least, greatest) = (least, greatest)

-- `SELECT MIN(n) AS range_start, MAX(n) AS range_end … GROUP BY grp ORDER BY range_start`.
unfoldable pub grouped_ranges : List ℤ → List (ℤ × ℤ)
unfolding gap_groups group_by_grp order_by
grouped_ranges ns =
    order_by {A = ℤ × ℤ} (λ r. r.0) (map range_of_group (group_by_grp (gap_groups ns)))
