-- ===== src/Text/Radix.antt =====
-- What is printed is read back, in any radix up to sixteen.
use native.Mathlib.Nat.{div-add-mod', div-lt_self, mod-lt}
use fossil_headers_db.Prelude.{
  ℕ, zero, suc, ◌+◌, ◌-◌, ◌*◌, ◌/◌, ◌%◌, ◌≤◌, ◌<◌, ◌≡◌, refl, ap, ◌∙◌, inl, inr, true, false, some,
  [], ◌∷◌, arith, ltb, ◌==◌, pos, negsuc, Bool-cases,
}
use fossil_headers_db.Text.{
  Text, to_digit, from_digit, digits, scan, scan_signed, from_str_radix, IntErrorKind, pos_overflow,
  neg_overflow, all_hex, is_ascii_hexdigit, trim_0x,
}
use fossil_headers_db.Result.{ok}

module _ (radix : ℕ) (low : 2 ≤ radix) (high : radix ≤ 16) where
  to_digit-from_digit : (d : ℕ) → d < radix → to_digit radix (from_digit d) ≡ some d
  unfolding to_digit from_digit
  to_digit-from_digit d h = ground arith

  module _ (limit : ℕ) (over : IntErrorKind) where
    scan_digit :
        (acc d : ℕ) (s : Text)
        → d < radix
        → acc * radix + d ≤ limit
        → scan radix limit over acc (from_digit d ∷ s) ≡ scan radix limit over (acc * radix + d) s
    unfolding scan
    scan_digit acc d s h fits = rw (to_digit-from_digit d h, scan) (ground arith)

    -- Reading the digits of `n` leaves the reader at `n`.
    pub scan-digits :
        (f n : ℕ) (rest : Text)
        → n < f
        → n ≤ limit
        → scan radix limit over 0 (digits radix f n rest) ≡ scan radix limit over n rest
    unfolding digits
    scan-digits zero n rest h fits = absurd (omega arith)
    scan-digits (suc f) n rest h fits = elim (Bool-cases (ltb n radix)) [
      | inl small ↦
          rw (small, digits)
            (scan_digit 0 n rest (ground arith) (omega arith)
              ∙ ap (λ k. scan radix limit over k rest) (omega arith))
      | inr large ↦
          let shrinks : n / radix < n = div-lt_self (ground arith) low in
          let whole : n / radix * radix + n % radix ≡ n = div-add-mod' n radix in
          let last : n % radix < radix = mod-lt n (omega arith) in
          rw (large, digits)
            (scan-digits f (n / radix) (from_digit (n % radix) ∷ rest) (omega arith) (omega arith)
              ∙ scan_digit (n / radix) (n % radix) rest last (omega arith)
              ∙ ap (λ k. scan radix limit over k rest) whole)
    ]

  -- A printed number begins with a digit.
  pub digits_head :
      (f n : ℕ) (rest : Text)
      → n < f
      → (d : ℕ) × (s : Text) × (d < radix) × (digits radix f n rest ≡ from_digit d ∷ s)
  unfolding digits
  digits_head zero n rest h = absurd (omega arith)
  digits_head (suc f) n rest h = elim (Bool-cases (ltb n radix)) [
    | inl small ↦ (n, rest, ground arith, rw (small, digits))
    | inr large ↦
        let shrinks : n / radix < n = div-lt_self (ground arith) low in
        let (d, s, below, e) =
          digits_head f (n / radix) (from_digit (n % radix) ∷ rest) (omega arith) in
        (d, s, below, rw (large, digits) e)
  ]

  hexdigit-from_digit : (d : ℕ) → d < radix → is_ascii_hexdigit (from_digit d) ≡ true
  unfolding is_ascii_hexdigit from_digit
  hexdigit-from_digit d h = ground arith

  pub all_hex-digits :
      (f n : ℕ) (rest : Text) → n < f → all_hex rest ≡ true → all_hex (digits radix f n rest) ≡ true
  unfolding digits all_hex
  all_hex-digits zero n rest h hex = hex
  all_hex-digits (suc f) n rest h hex = elim (Bool-cases (ltb n radix)) [
    | inl small ↦ rw (small, digits) (rw (all_hex, hexdigit-from_digit n (ground arith)) hex)
    | inr large ↦
        let shrinks : n / radix < n = div-lt_self (ground arith) low in
        let last : n % radix < radix = mod-lt n (omega arith) in
        rw (large, digits)
          (all_hex-digits f (n / radix) (from_digit (n % radix) ∷ rest) (omega arith)
            (rw (all_hex, hexdigit-from_digit (n % radix) last) hex))
  ]

  from_digit_unsigned :
      (d : ℕ) → d < radix → ((from_digit d == b'+') ≡ false) × ((from_digit d == b'-') ≡ false)
  unfolding from_digit
  from_digit_unsigned d h = (ground arith, ground arith)

  -- The whole reader, on the digits of a number below the sign bit.
  pub from_str_radix-digits :
      (half n : ℕ) → n < half → from_str_radix half radix (digits radix (suc n) n []) ≡ ok (pos n)
  unfolding from_str_radix
  from_str_radix-digits half n h =
      let (d, s, below, e) = digits_head (suc n) n [] (omega arith) in
      let read : scan radix (half - 1) pos_overflow 0 (digits radix (suc n) n []) ≡ ok n =
        scan-digits (half - 1) pos_overflow (suc n) n [] (omega arith) (omega arith) in
      let (plus, minus) = from_digit_unsigned d below in
      rw (e, from_str_radix) (rw (plus, minus) (rw (rw e at read)))

  -- The same behind a minus sign.
  pub from_str_radix-negative :
      (half n : ℕ)
      → suc n ≤ half
      → from_str_radix half radix (b'-' ∷ digits radix (suc (suc n)) (suc n) []) ≡ ok (negsuc n)
  unfolding from_str_radix scan_signed
  from_str_radix-negative half n h =
      let (d, s, below, e) = digits_head (suc (suc n)) (suc n) [] (omega arith) in
      let read : scan radix half neg_overflow 0 (digits radix (suc (suc n)) (suc n) [])
          ≡ ok (suc n) =
        scan-digits half neg_overflow (suc (suc n)) (suc n) [] (omega arith) h in
      rw (e, from_str_radix) (rw (scan_signed, rw e at read))

-- Text of hexadecimal digits has no prefix to trim.
pub trim_0x-all_hex : (s : Text) → all_hex s ≡ true → trim_0x s ≡ s
unfolding trim_0x all_hex
trim_0x-all_hex [] h = refl
trim_0x-all_hex (c ∷ []) h = refl
trim_0x-all_hex (c ∷ d ∷ s) h = ground arith
