-- ===== src/OrderedIndex/Base64.antt =====
-- base64.RawURLEncoding, as encodeCursor and decodeCursor of internal/orderedindex/orderedindex.go use
-- it: the strict decoder refuses stray bits behind the last byte, and passes over line ends.
use pgstore.Prelude.{
  ℕ, ◌+◌, ◌-◌, ◌*◌, ◌/◌, ◌%◌, ◌<◌, ◌≡◌, refl, Bool, false, ◌&&◌, ◌||◌, not, Option, none, some,
  List, [], ◌∷◌, All, keep, length, ◌≤◌, arith, ltb, ◌==◌, if◌then◌else◌,
}
use pgstore.Text.{Text}

-- The alphabet: letters, digits, '-' and '_'.
digit : ℕ → ℕ
digit n =
    if ltb n 26
    then n + 65
    else if ltb n 52
    then n + 71
    else if ltb n 62
    then n - 4
    else if n == 62
    then 45
    else 95

value : ℕ → Option ℕ
value c =
    if not (ltb c 65) && ltb c 91
    then some (c - 65)
    else if not (ltb c 97) && ltb c 123
    then some (c - 71)
    else if not (ltb c 48) && ltb c 58
    then some (c + 4)
    else if c == 45
    then some 62
    else if c == 95
    then some 63
    else none

-- EncodeToString
unfoldable pub encode : List ℕ → Text
unfolding digit
encode [] = []
encode (a ∷ []) = digit (a / 4) ∷ digit (a % 4 * 16) ∷ []
encode (a ∷ b ∷ []) = digit (a / 4) ∷ digit (a % 4 * 16 + b / 16) ∷ digit (b % 16 * 4) ∷ []
encode (a ∷ b ∷ c ∷ rest) =
    digit (a / 4)
    ∷ digit (a % 4 * 16 + b / 16)
    ∷ digit (b % 16 * 4 + c / 64)
    ∷ digit (c % 64)
    ∷ encode rest

one_byte : Option ℕ → Option ℕ → Option (List ℕ)
one_byte (some x) (some y) = if y % 16 == 0 then some ((x * 4 + y / 16) ∷ []) else none
one_byte (some x) none = none
one_byte none y = none

two_bytes : Option ℕ → Option ℕ → Option ℕ → Option (List ℕ)
two_bytes (some x) (some y) (some z) =
    if z % 4 == 0 then some ((x * 4 + y / 16) ∷ (y % 16 * 16 + z / 4) ∷ []) else none
two_bytes (some x) (some y) none = none
two_bytes (some x) none z = none
two_bytes none y z = none

three_bytes : Option ℕ → Option ℕ → Option ℕ → Option ℕ → Option (List ℕ) → Option (List ℕ)
three_bytes (some x) (some y) (some z) (some w) (some rest) =
    some ((x * 4 + y / 16) ∷ (y % 16 * 16 + z / 4) ∷ (z % 4 * 64 + w) ∷ rest)
three_bytes (some x) (some y) (some z) (some w) none = none
three_bytes (some x) (some y) (some z) none rest = none
three_bytes (some x) (some y) none w rest = none
three_bytes (some x) none z w rest = none
three_bytes none y z w rest = none

decode_groups : Text → Option (List ℕ)
unfolding value one_byte two_bytes three_bytes
decode_groups [] = some []
decode_groups (a ∷ []) = none
decode_groups (a ∷ b ∷ []) = one_byte (value a) (value b)
decode_groups (a ∷ b ∷ c ∷ []) = two_bytes (value a) (value b) (value c)
decode_groups (a ∷ b ∷ c ∷ d ∷ rest) =
    three_bytes (value a) (value b) (value c) (value d) (decode_groups rest)

is_line_end : ℕ → Bool
is_line_end c = c == 10 || c == 13

-- Strict().DecodeString; `none` is a CorruptInputError.
unfoldable pub decode : Text → Option (List ℕ)
unfolding decode_groups is_line_end
decode text = decode_groups (keep (λ c. not (is_line_end c)) text)

value-digit : (n : ℕ) → n < 64 → (value (digit n) ≡ some n) × (is_line_end (digit n) ≡ false)
unfolding value digit is_line_end
value-digit n h = ground arith

abbrev pub IsBytes : List ℕ → Type 0
IsBytes = All (λ b. b < 256)

keep-encode : (bs : List ℕ) → IsBytes bs → keep (λ c. not (is_line_end c)) (encode bs) ≡ encode bs
unfolding encode keep
keep-encode [] h = refl
keep-encode (a ∷ []) h =
    rw ((value-digit (a / 4) (omega (arith, h.0))).1, (value-digit (a % 4 * 16) (omega arith)).1)
      refl
keep-encode (a ∷ b ∷ []) h =
    rw
      (
        (value-digit (a / 4) (omega (arith, h.0))).1,
        (value-digit (a % 4 * 16 + b / 16) (omega (arith, h.1))).1,
        (value-digit (b % 16 * 4) (omega arith)).1,
      )
      refl
keep-encode (a ∷ b ∷ c ∷ rest) (ha, (hb, (hc, hr))) =
    rw
      (
        (value-digit (a / 4) (omega (arith, ha))).1,
        (value-digit (a % 4 * 16 + b / 16) (omega (arith, hb))).1,
        (value-digit (b % 16 * 4 + c / 64) (omega (arith, hc))).1,
        (value-digit (c % 64) (omega arith)).1,
        keep-encode rest hr,
      )
      refl

decode_groups-encode : (bs : List ℕ) → IsBytes bs → decode_groups (encode bs) ≡ some bs
unfolding encode decode_groups one_byte two_bytes three_bytes
decode_groups-encode [] h = refl
decode_groups-encode (a ∷ []) h =
    rw ((value-digit (a / 4) (omega (arith, h.0))).0, (value-digit (a % 4 * 16) (omega arith)).0)
      (ground (arith, h.0))
decode_groups-encode (a ∷ b ∷ []) h =
    rw
      (
        (value-digit (a / 4) (omega (arith, h.0))).0,
        (value-digit (a % 4 * 16 + b / 16) (omega (arith, h.1))).0,
        (value-digit (b % 16 * 4) (omega arith)).0,
      )
      (ground (arith, h.0, h.1))
decode_groups-encode (a ∷ b ∷ c ∷ rest) (ha, (hb, (hc, hr))) =
    rw
      (
        (value-digit (a / 4) (omega (arith, ha))).0,
        (value-digit (a % 4 * 16 + b / 16) (omega (arith, hb))).0,
        (value-digit (b % 16 * 4 + c / 64) (omega (arith, hc))).0,
        (value-digit (c % 64) (omega arith)).0,
        decode_groups-encode rest hr,
      )
      (ground (arith, ha, hb, hc))

-- Decoding what was encoded gives the bytes back.
pub decode-encode : (bs : List ℕ) → IsBytes bs → decode (encode bs) ≡ some bs
unfolding decode
decode-encode bs h = rw (keep-encode bs h) (decode_groups-encode bs h)

-- Four characters for three bytes, and no padding.
pub length-encode : (bs : List ℕ) → 3 * length (encode bs) ≤ 4 * length bs + 2
unfolding encode
length-encode [] = omega arith
length-encode (a ∷ []) = omega arith
length-encode (a ∷ b ∷ []) = omega arith
length-encode (a ∷ b ∷ c ∷ rest) = omega (arith, length-encode rest)

pub encode-not_empty : (bs : List ℕ) → 0 < length bs → 0 < length (encode bs)
unfolding encode
encode-not_empty [] h = h
encode-not_empty (a ∷ []) h = omega arith
encode-not_empty (a ∷ b ∷ []) h = omega arith
encode-not_empty (a ∷ b ∷ c ∷ rest) h = omega arith
