-- ===== src/Blocks/Ranges.antt =====
-- Which numbers a range has, and that a sort keeps them.
use fossil_headers_db.Prelude.{
  ℕ, zero, suc, ◌+◌, ◌-◌, ◌≤◌, ◌<◌, ℤ, pos, negsuc, pos_part, ◌+ℤ◌, ◌≤ℤ◌, ◌<ℤ◌, eqb_ℤ, ◌≡◌, refl,
  ap, true, ◌||◌, List, [], ◌∷◌, inl, inr, arith, Bool-cases, length, ◌==◌,
}
use fossil_headers_db.Prelude.Machine.{i64_half, add_i64, sub_i64}
use fossil_headers_db.Rpc.{BlockHeader}
use fossil_headers_db.Result.{ok}
use fossil_headers_db.Database.Rows.{memb}
use fossil_headers_db.Repositories.Lookup.{block_key, keys}
use fossil_headers_db.Blocks.{numbered, expected_count, insert_header, sort_headers}

pub length-numbered : (s : ℤ) (i k : ℕ) → length (numbered s i k) ≡ k
unfolding numbered
length-numbered s i zero = refl
length-numbered s i (suc k) = ap suc (length-numbered s (i + 1) k)

memb_cons : (n m : ℤ) (ms : List ℤ) → memb n ms ≡ true → memb n (m ∷ ms) ≡ true
unfolding memb
memb_cons n m ms h = ground arith

memb_head : (n : ℤ) (ms : List ℤ) → memb n (n ∷ ms) ≡ true
unfolding memb
memb_head n ms = ground arith

memb_position :
    (s : ℤ) (i k j : ℕ) → i ≤ j → j < i + k → memb (add_i64 s (pos j)) (numbered s i k) ≡ true
unfolding numbered
memb_position s i zero j low high = absurd (omega arith)
memb_position s i (suc k) j low high = elim (Bool-cases (i == j)) [
  | inl same ↦
      let e : i ≡ j = ground arith in rw e (memb_head (add_i64 s (pos j)) (numbered s (j + 1) k))
  | inr later ↦
      memb_cons (add_i64 s (pos j)) (add_i64 s (pos i)) (numbered s (i + 1) k)
        (memb_position s (i + 1) k j (ground arith) (omega arith))
]

-- The numbers that the services count with: from 0 to below `i64::MAX`.
abbrev pub IsNear : ℤ → Type 0
IsNear n = (pos 0 ≤ℤ n) × (n <ℤ pos 9223372036854775807)

-- The machine's sum and difference, near zero.
pub add_i64-pos : (a i : ℕ) → a + i < i64_half → add_i64 (pos a) (pos i) ≡ pos (a + i)
unfolding add_i64
add_i64-pos a i h = ground arith

pub sub_i64-pos : (a b : ℕ) → a ≤ b → b < i64_half → sub_i64 (pos b) (pos a) ≡ pos (b - a)
unfolding sub_i64
sub_i64-pos a b h k = ground arith

-- Every number from `s` to `e` is among `e - s + 1` numbers counted from `s`.
pub memb-numbered :
    (s e n : ℤ) (k : ℕ)
    → IsNear s
    → IsNear e
    → s ≤ℤ n
    → n ≤ℤ e
    → k + pos_part s ≡ pos_part e + 1
    → memb n (numbered s 0 k) ≡ true
memb-numbered (pos a) (pos b) (pos c) k hs he low high count =
    let sum : add_i64 (pos a) (pos (c - a)) ≡ pos (a + (c - a)) =
      add_i64-pos a (c - a) (omega arith) in
    let whole : a + (c - a) ≡ c = omega arith in
    rw (sum, whole) at (memb_position (pos a) 0 k (c - a) (omega arith) (omega arith))
memb-numbered (negsuc a) e n k hs he low high count = absurd (omega arith)
memb-numbered (pos a) (negsuc b) n k hs he low high count = absurd (omega arith)
memb-numbered (pos a) (pos b) (negsuc c) k hs he low high count = absurd (omega arith)

memb-insert_header :
    (n : ℤ) (h : BlockHeader) (gs : List BlockHeader)
    → memb n (keys (insert_header h gs)) ≡ (eqb_ℤ (block_key h) n || memb n (keys gs))
unfolding memb keys insert_header
memb-insert_header n h [] = refl
memb-insert_header n h (g ∷ gs) = ground (arith, memb-insert_header n h gs)

-- A sort keeps the numbers.
pub memb-sort_headers :
    (n : ℤ) (hs : List BlockHeader) → memb n (keys (sort_headers hs)) ≡ memb n (keys hs)
unfolding sort_headers memb keys
memb-sort_headers n [] = refl
memb-sort_headers n (h ∷ hs) =
    ground (arith, memb-insert_header n h (sort_headers hs), memb-sort_headers n hs)

-- The count of a range that fits.
pub expected_count-eq :
    (s e : ℤ) (k : ℕ)
    → IsNear s
    → IsNear e
    → expected_count s e ≡ ok k
    → k + pos_part s ≡ pos_part e + 1
unfolding expected_count
expected_count-eq (pos a) (pos b) k hs he h = ground arith
expected_count-eq (negsuc a) e k hs he h = absurd (omega arith)
expected_count-eq (pos a) (negsuc b) k hs he h = absurd (omega arith)

-- The number behind a block.
pub add_i64-one : (l : ℤ) → IsNear l → add_i64 l (pos 1) ≡ l +ℤ pos 1
unfolding add_i64
add_i64-one (pos a) h = ground arith
add_i64-one (negsuc a) h = absurd (omega arith)
