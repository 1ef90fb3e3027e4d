-- ===== src/OrderedIndex/Decimal.antt =====
-- parseUint of internal/orderedindex/orderedindex.go: the decimal text of a numeric column, as
-- PostgreSQL's ::text and strconv.FormatUint write it and strconv.ParseUint reads it.
use pgstore.Prelude.{
  ℕ, zero, suc, ◌+◌, ◌-◌, ◌*◌, ◌/◌, ◌%◌, ◌^◌, ◌<◌, ◌≡◌, ◌≤◌, ◌↔◌, refl, length, Bool, ◌&&◌, Option,
  none, some, [], ◌∷◌, arith, ltb, leb, if◌then◌else◌,
}
use pgstore.Text.{Text, text_eq, text_eq_iff}
use pgstore.Errors.{Result, ok, err, redacted}

-- The digits of a number before some text, by the number of digits that there is room for.
digits : ℕ → ℕ → Text → Text
digits zero n rest = rest
digits (suc room) n rest =
    let more = digits room (n / 10) ((48 + n % 10) ∷ rest) in
    if ltb n 10 then (48 + n) ∷ rest else more

-- strconv.FormatUint(n, 10): a uint64 has at most twenty digits.
unfoldable pub format_uint : ℕ → Text
unfolding digits
format_uint n = digits 20 n []

is_digit : ℕ → Bool
is_digit c = leb 48 c && leb c 57

-- The value of a text of digits behind a number that has been read.
read_digits : ℕ → Text → Option ℕ
unfolding is_digit
read_digits n [] = some n
read_digits n (c ∷ cs) =
    let more = read_digits (n * 10 + (c - 48)) cs in if is_digit c then more else none

-- strconv.ParseUint(text, 10, 64); `none` is a syntax or range error.
in_range : Option ℕ → Option ℕ
in_range none = none
in_range (some n) = if ltb n (2 ^ 64) then some n else none

unfoldable pub read_uint : Text → Option ℕ
unfolding read_digits in_range
read_uint [] = none
read_uint (c ∷ cs) = in_range (read_digits 0 (c ∷ cs))

canonical : Text → Option ℕ → Result ℕ
canonical text none = err (redacted "ordered integer decode")
canonical text (some n) =
    if text_eq (format_uint n) text then ok n else err (redacted "ordered integer decode")

unfoldable pub parse_uint : Text → Result ℕ
unfolding canonical
parse_uint text = canonical text (read_uint text)

pow10 : ℕ → ℕ
pow10 zero = 1
pow10 (suc n) = 10 * pow10 n

pow10-step : (n : ℕ) → pow10 (suc n) ≡ 10 * pow10 n
unfolding pow10
pow10-step n = refl

pow10-zero : pow10 zero ≡ 1
unfolding pow10
pow10-zero = refl

read_digits-digits :
    (room n : ℕ) (rest : Text)
    → n < pow10 room
    → read_digits 0 (digits room n rest) ≡ read_digits n rest
unfolding read_digits digits
read_digits-digits zero n rest h = rw (zero_of n (omega (arith, h, pow10-zero))) refl
  where
    zero_of : (n : ℕ) → n < 1 → n ≡ 0
    zero_of n h = omega arith
read_digits-digits (suc room) n rest h =
    ground (arith, pow10-step room, read_digits-digits room (n / 10) ((48 + n % 10) ∷ rest))

length-digits : (room n : ℕ) (rest : Text) → length rest ≤ length (digits room n rest)
unfolding digits
length-digits zero n rest = omega arith
length-digits (suc room) n rest = ground (arith, length-digits room (n / 10) ((48 + n % 10) ∷ rest))

length-format_uint : (n : ℕ) → 0 < length (format_uint n)
unfolding format_uint digits
length-format_uint n = ground (arith, length-digits 19 (n / 10) ((48 + n % 10) ∷ []))

read_uint-cons : (text : Text) → 0 < length text → read_uint text ≡ in_range (read_digits 0 text)
unfolding read_uint
read_uint-cons [] h = absurd (omega arith)
read_uint-cons (c ∷ cs) h = refl

pow10-twenty : 2 ^ 64 < pow10 20
unfolding pow10
pow10-twenty = omega arith

read_digits-format : (n : ℕ) → n < 2 ^ 64 → read_digits 0 (format_uint n) ≡ some n
unfolding format_uint read_digits
read_digits-format n h = read_digits-digits 20 n [] (omega (arith, pow10-twenty))

canonical-format : (n : ℕ) → canonical (format_uint n) (some n) ≡ ok n
unfolding canonical
canonical-format n = ground (arith, text_eq_iff (format_uint n) (format_uint n))

read_uint-format : (n : ℕ) → n < 2 ^ 64 → read_uint (format_uint n) ≡ some n
unfolding in_range
read_uint-format n h =
    rw (read_uint-cons (format_uint n) (length-format_uint n), read_digits-format n h)
      (ground arith)

canonical-ok : (text : Text) (r : Option ℕ) (n : ℕ) → canonical text r ≡ ok n → text ≡ format_uint n
unfolding canonical
canonical-ok text none n h = absurd (cc)
canonical-ok text (some m) n h = ground (arith, text_eq_iff (format_uint m) text)

-- What the database writes of a number that fits a uint64 is read back as that number, and no text
-- but that is read as it.
pub parse_uint-format :
    (n : ℕ) (text : Text) → n < 2 ^ 64 → (parse_uint text ≡ ok n) ↔ (text ≡ format_uint n)
unfolding parse_uint
parse_uint-format n text h =
    (canonical-ok text (read_uint text) n, λ e. rw (e, read_uint-format n h) (canonical-format n))
