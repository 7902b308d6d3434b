-- ===== src/Db/Grouping.antt =====
-- src/db/mod.rs, `find_missing_block_ranges`: what grouping an ascending list by `n - ROW_NUMBER()`
-- gives.
use fossil_headers_db.Prelude.{
  ℕ, ◌+◌, ◌≤◌, ◌<◌, ℤ, pos, negsuc, leb_ℤ, eqb_ℤ, eqb_ℤ→eq, min_ℤ, max_ℤ, ◌≡◌, refl, ◌∙◌, inl, inr,
  true, List, [], ◌∷◌, map, arith, Bool-cases, if◌then◌else◌,
}
use fossil_headers_db.Prelude.Machine.{add_i64, sub_i64}
use fossil_headers_db.Database.Sql.{
  IsOrdered, order_by-IsOrdered, number_rows, gap_groups, join_group, join_groups, group_by_grp,
  range_of_group,
}

-- An ascending list of numbers from `lo` to `hi`.
abbrev pub Ascending : ℕ → ℕ → List ℤ → Type 0
Ascending lo hi [] = Unit {0}
Ascending lo hi (pos n ∷ ns) = (lo ≤ n) × (n ≤ hi) × Ascending (n + 1) hi ns
Ascending lo hi (negsuc n ∷ ns) = 1 ≤ 0

-- The runs of consecutive numbers of an ascending list, each with its first and last number.
abbrev pub extend : ℤ → List (ℤ × ℤ) → List (ℤ × ℤ)
extend n [] = (n, n) ∷ []
extend n ((first, last) ∷ groups) =
    if eqb_ℤ (add_i64 n (pos 1)) first then (n, last) ∷ groups else (n, n) ∷ (first, last) ∷ groups

unfoldable pub islands : List ℤ → List (ℤ × ℤ)
islands [] = []
islands (n ∷ ns) = extend n (islands ns)

Ascending-IsOrdered : (lo hi : ℕ) (ns : List ℤ) → Ascending lo hi ns → IsOrdered {A = ℤ} (λ n. n) ns
Ascending-IsOrdered lo hi [] up = tt
Ascending-IsOrdered lo hi (pos n ∷ []) up = tt
Ascending-IsOrdered lo hi (pos n ∷ pos m ∷ ns) (low, high, up) =
    (ground arith, Ascending-IsOrdered (n + 1) hi (pos m ∷ ns) up)
Ascending-IsOrdered lo hi (pos n ∷ negsuc m ∷ ns) (low, high, up) = absurd (omega arith)
Ascending-IsOrdered lo hi (negsuc n ∷ ns) up = absurd (omega arith)

-- The keys of two numbers one row apart.
keys_in_order :
    (n m i : ℕ)
    → i ≤ n + 1
    → n < m
    → m < 4611686018427387904
    → leb_ℤ (sub_i64 (pos n) (pos i)) (sub_i64 (pos m) (pos (i + 1))) ≡ true
unfolding sub_i64
keys_in_order n m i low less small = ground arith

keys_equal :
    (n m i : ℕ)
    → i ≤ n + 1
    → n < m
    → m < 4611686018427387904
    → eqb_ℤ (sub_i64 (pos n) (pos i)) (sub_i64 (pos m) (pos (i + 1)))
      ≡ eqb_ℤ (add_i64 (pos n) (pos 1)) (pos m)
unfolding sub_i64 add_i64
keys_equal n m i low less small = ground arith

-- The numbered rows of an ascending list are in the order of their keys.
number_rows-IsOrdered :
    (i lo hi : ℕ) (ns : List ℤ)
    → hi < 4611686018427387904
    → i ≤ lo + 1
    → Ascending lo hi ns
    → IsOrdered {A = ℤ × ℤ} (λ r. r.1) (number_rows i ns)
unfolding number_rows
number_rows-IsOrdered i lo hi [] small low up = tt
number_rows-IsOrdered i lo hi (pos n ∷ []) small low up = tt
number_rows-IsOrdered i lo hi (pos n ∷ pos m ∷ ns) small low (above, below, up) = (
  keys_in_order n m i (omega arith) (omega arith) (omega arith),
  number_rows-IsOrdered (i + 1) (n + 1) hi (pos m ∷ ns) small (omega arith) up,
)
number_rows-IsOrdered i lo hi (pos n ∷ negsuc m ∷ ns) small low (above, below, up) =
    absurd (omega arith)
number_rows-IsOrdered i lo hi (negsuc n ∷ ns) small low up = absurd (omega arith)

-- The first group of the rows of an ascending list, and that the groups are its runs.
record Grouped (i n : ℕ) (ns : List ℤ) : Type 0 where
  last : ℕ
  others : List (ℤ × ℤ × ℤ)
  ordered : n ≤ last
  groups :
      join_groups (number_rows i (pos n ∷ ns)) ≡ (sub_i64 (pos n) (pos i), pos n, pos last) ∷ others
  runs : islands (pos n ∷ ns) ≡ (pos n, pos last) ∷ map range_of_group others

join_groups-Grouped :
    (i n lo hi : ℕ) (ns : List ℤ)
    → hi < 4611686018427387904
    → i ≤ lo + 1
    → Ascending lo hi (pos n ∷ ns)
    → Grouped i n ns
unfolding number_rows join_groups join_group islands
join_groups-Grouped i n lo hi [] small low up = record {
  last = n;
  others = [];
  ordered = omega arith;
  groups = refl;
  runs = refl;
}
join_groups-Grouped i n lo hi (negsuc m ∷ ns) small low (above, below, up) = absurd (omega arith)
join_groups-Grouped i n lo hi (pos m ∷ ns) small low (above, below, up) =
    let rest : Grouped (i + 1) m ns =
      join_groups-Grouped (i + 1) m (n + 1) hi ns small (omega arith) up in
    let keys = keys_equal n m i (omega arith) (omega arith) (omega arith) in
    elim (Bool-cases (eqb_ℤ (add_i64 (pos n) (pos 1)) (pos m))) [
      | inl next ↦
          let same : sub_i64 (pos n) (pos i) ≡ sub_i64 (pos m) (pos (i + 1)) =
            eqb_ℤ→eq (sub_i64 (pos n) (pos i)) (sub_i64 (pos m) (pos (i + 1))) (keys ∙ next) in
          let least : min_ℤ (pos n) (pos m) ≡ pos n = ground arith in
          let reach = rest.ordered in
          let greatest : max_ℤ (pos n) (pos rest.last) ≡ pos rest.last = ground arith in
          record {
            last = rest.last;
            others = rest.others;
            ordered = let o = rest.ordered in omega arith;
            groups = rw (rest.groups, keys, next, least, greatest, same) refl;
            runs = rw (rest.runs, next) refl;
          }
      | inr gap ↦ record {
        last = n;
        others = (sub_i64 (pos m) (pos (i + 1)), pos m, pos rest.last) ∷ rest.others;
        ordered = omega arith;
        groups = rw (rest.groups, keys, gap) refl;
        runs = rw (rest.runs, gap) refl;
      }
    ]

-- The groups of the query are the runs of an ascending list, in front of the last `ORDER BY`.
pub group_by_grp-islands :
    (lo hi : ℕ) (ns : List ℤ)
    → hi < 4611686018427387904
    → Ascending lo hi ns
    → map range_of_group (group_by_grp (gap_groups ns)) ≡ islands ns
unfolding gap_groups group_by_grp number_rows join_groups islands
group_by_grp-islands lo hi [] small up = refl
group_by_grp-islands lo hi (negsuc n ∷ ns) small up = absurd (omega arith)
group_by_grp-islands lo hi (pos n ∷ ns) small up =
    let g : Grouped 1 n ns = join_groups-Grouped 1 n lo hi ns small (omega arith) up in
    rw
      (
        order_by-IsOrdered {A = ℤ} (λ k. k) (pos n ∷ ns)
            (Ascending-IsOrdered lo hi (pos n ∷ ns) up),
        order_by-IsOrdered {A = ℤ × ℤ} (λ r. r.1) (number_rows 1 (pos n ∷ ns))
            (number_rows-IsOrdered 1 lo hi (pos n ∷ ns) small (omega arith) up),
        g.groups,
        g.runs,
      )
      refl
