-- ===== src/Text.antt =====
-- Rust's strings, as the list of their bytes, and the number formats of the standard library:
-- `{}` and `{:x}` of an `i64`, `to_digit`, and `from_str_radix`.
pub mod Radix
use Prim.Native.Char.{code}
use fossil_headers_db.Prelude.{
  ℕ, zero, suc, ◌+◌, ◌-◌, ◌*◌, ◌/◌, ◌%◌, ℤ, pos, negsuc, String, Bool, true, false, ◌&&◌, ◌||◌,
  List, [], ◌∷◌, Option, none, some, ltb, leb, ◌==◌, if◌then◌else◌,
}
use fossil_headers_db.Prelude.Machine.{i64_half, to_bits}
use fossil_headers_db.Result.{Result, ok, err}

abbrev pub Text : Type 0
Text = List ℕ

-- The bytes of an ASCII literal.
unfoldable pub text : String → Text
text String.[] = []
text (String.◌∷◌ c s) = code c ∷ text s

unfoldable pub text_eq : Text → Text → Bool
text_eq [] [] = true
text_eq [] (d ∷ t) = false
text_eq (c ∷ s) [] = false
text_eq (c ∷ s) (d ∷ t) = c == d && text_eq s t

-- `str::starts_with` and `str::contains`.
unfoldable pub starts_with : Text → Text → Bool
starts_with s [] = true
starts_with [] (d ∷ t) = false
starts_with (c ∷ s) (d ∷ t) = c == d && starts_with s t

unfoldable pub contains : Text → Text → Bool
unfolding starts_with
contains [] t = starts_with [] t
contains (c ∷ s) t = starts_with (c ∷ s) t || contains s t

-- The prefix `0x`: what `strip_prefix("0x").unwrap_or(s)` and `trim_start_matches("0x")` leave.
unfoldable pub strip_0x : Text → Text
strip_0x [] = []
strip_0x (c ∷ []) = c ∷ []
strip_0x (c ∷ d ∷ s) = if c == b'0' && d == b'x' then s else c ∷ d ∷ s

unfoldable pub trim_0x : Text → Text
trim_0x [] = []
trim_0x (c ∷ []) = c ∷ []
trim_0x (c ∷ d ∷ s) = let rest = trim_0x s in if c == b'0' && d == b'x' then rest else c ∷ d ∷ s

-- `char::to_digit` and `char::is_ascii_hexdigit`.
abbrev pub digit_value : ℕ → Option ℕ
digit_value c =
    if leb b'0' c && leb c b'9'
    then some (c - b'0')
    else if leb b'a' c && leb c b'z'
    then some (c - 87)
    else if leb b'A' c && leb c b'Z'
    then some (c - 55)
    else none

unfoldable pub to_digit : ℕ → ℕ → Option ℕ
to_digit radix c = elim (digit_value c) [
  | none ↦ none
  | some d ↦ if ltb d radix then some d else none
]

unfoldable pub is_ascii_hexdigit : ℕ → Bool
is_ascii_hexdigit c =
    (leb b'0' c && leb c b'9') || ((leb b'a' c && leb c b'f') || (leb b'A' c && leb c b'F'))

unfoldable pub all_hex : Text → Bool
unfolding is_ascii_hexdigit
all_hex [] = true
all_hex (c ∷ s) = is_ascii_hexdigit c && all_hex s

-- The digit that stands for a value below 16, in lower case.
unfoldable pub from_digit : ℕ → ℕ
from_digit d = if ltb d 10 then 48 + d else 87 + d

-- The digits of `n`, the most significant first, in front of `rest`. The fuel `n + 1` is enough,
-- since each round divides `n`.
unfoldable pub digits : ℕ → ℕ → ℕ → Text → Text
unfolding from_digit
digits radix zero n rest = rest
digits radix (suc f) n rest = elim (ltb n radix) [
  | true ↦ from_digit n ∷ rest
  | false ↦ digits radix f (n / radix) (from_digit (n % radix) ∷ rest)
]

unfoldable pub show_nat : ℕ → Text
unfolding digits
show_nat n = digits 10 (suc n) n []

-- `{}` and `{:x}`; the hexadecimal form of a negative number is its bit pattern.
unfoldable pub show_i64 : ℤ → Text
unfolding show_nat
show_i64 (pos n) = show_nat n
show_i64 (negsuc n) = b'-' ∷ show_nat (suc n)

unfoldable pub hex_i64 : ℤ → Text
unfolding digits to_bits
hex_i64 a = let n : ℕ = to_bits a in digits 16 (suc n) n []

-- `std::num::IntErrorKind`.
pub data IntErrorKind : Type 0 where
  empty invalid_digit pos_overflow neg_overflow : IntErrorKind

-- The loop of `from_str_radix`: the magnitude may not pass `limit`.
unfoldable pub scan : ℕ → ℕ → IntErrorKind → ℕ → Text → Result IntErrorKind ℕ
unfolding to_digit
scan radix limit over acc [] = ok acc
scan radix limit over acc (c ∷ s) = elim (to_digit radix c) [
  | none ↦ err invalid_digit
  | some d ↦
      let rest = scan radix limit over (acc * radix + d) s in
      if leb (acc * radix + d) limit then rest else err over
]

abbrev pub to_pos : Result IntErrorKind ℕ → Result IntErrorKind ℤ
to_pos (ok n) = ok (pos n)
to_pos (err e) = err e

abbrev pub to_neg : Result IntErrorKind ℕ → Result IntErrorKind ℤ
to_neg (ok zero) = ok (pos 0)
to_neg (ok (suc n)) = ok (negsuc n)
to_neg (err e) = err e

-- What follows a sign; a sign alone is refused.
unfoldable pub scan_signed : ℕ → ℕ → IntErrorKind → Text → Result IntErrorKind ℕ
unfolding scan
scan_signed radix limit over [] = err invalid_digit
scan_signed radix limit over (c ∷ s) = scan radix limit over 0 (c ∷ s)

-- `iN::from_str_radix` for the width whose sign bit is worth `half`.
unfoldable pub from_str_radix : ℕ → ℕ → Text → Result IntErrorKind ℤ
unfolding scan_signed
from_str_radix half radix [] = err empty
from_str_radix half radix (c ∷ s) =
    if c == b'+'
    then to_pos (scan_signed radix (half - 1) pos_overflow s)
    else if c == b'-'
    then to_neg (scan_signed radix half neg_overflow s)
    else to_pos (scan radix (half - 1) pos_overflow 0 (c ∷ s))

-- `str::parse::<i64>`.
unfoldable pub parse_i64 : Text → Result IntErrorKind ℤ
unfolding from_str_radix
parse_i64 = from_str_radix i64_half 10

-- The message of a `ParseIntError`.
unfoldable pub show_int_error : IntErrorKind → Text
unfolding text
show_int_error empty = text "cannot parse integer from empty string"
show_int_error invalid_digit = text "invalid digit found in string"
show_int_error pos_overflow = text "number too large to fit in target type"
show_int_error neg_overflow = text "number too small to fit in target type"

-- `str::parse::<u64>`, where a minus sign is no digit, and `str::parse::<bool>`.
unfoldable pub parse_u64 : Text → Result IntErrorKind ℕ
unfolding scan_signed
parse_u64 [] = err empty
parse_u64 (c ∷ s) =
    if c == b'+'
    then scan_signed 10 18446744073709551615 pos_overflow s
    else scan_signed 10 18446744073709551615 pos_overflow (c ∷ s)

unfoldable pub parse_bool : Text → Option Bool
unfolding text_eq text
parse_bool s =
    if text_eq s (text "true")
    then some true
    else if text_eq s (text "false")
    then some false
    else none
