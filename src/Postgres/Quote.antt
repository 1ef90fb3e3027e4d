-- ===== src/Postgres/Quote.antt =====
-- QuoteIdentifier of internal/postgres/postgres.go, read back as PostgreSQL reads a quoted
-- identifier.
use pgstore.Prelude.{
  ℕ, ◌≡◌, refl, sym, ap, ◌∙◌, false, Option, none, some, [], ◌∷◌, ◌++◌, arith, ◌==◌, if◌then◌else◌,
  Bool-cases, inl, inr,
}
use mathlib.Core.List.{append_assoc}
use pgstore.Text.{Text}
use pgstore.Postgres.{double_quotes, quote_identifier, qualified}

abbrev consed : ℕ → Option (Text × Text) → Option (Text × Text)
consed c none = none
consed c (some (t, rest)) = some (c ∷ t, rest)

-- The text up to the closing quote, a doubled quote read as one, and what follows.
unfoldable pub read_quoted : Text → Option (Text × Text)
read_quoted [] = none
read_quoted (c ∷ []) = if c == b'"' then some ([], []) else none
read_quoted (c ∷ d ∷ cs) =
    let after_pair = read_quoted cs in
    let after_one = read_quoted (d ∷ cs) in
    if c == b'"'
    then if d == b'"' then consed b'"' after_pair else some ([], d ∷ cs)
    else consed c after_one

-- A quoted identifier at the head of a statement.
abbrev pub read_identifier : Text → Option (Text × Text)
read_identifier [] = none
read_identifier (c ∷ cs) = if c == b'"' then read_quoted cs else none

-- What may follow a quoted identifier: anything but a quote.
abbrev pub IsBoundary : Text → Type 0
IsBoundary [] = Unit
IsBoundary (c ∷ cs) = (c == b'"') ≡ false

read_quoted-end : (rest : Text) → IsBoundary rest → read_quoted (b'"' ∷ rest) ≡ some ([], rest)
unfolding read_quoted
read_quoted-end [] h = refl
read_quoted-end (c ∷ cs) h = ground arith

read_quoted-other :
    (c : ℕ) (s : Text) → (c == b'"') ≡ false → read_quoted (c ∷ s) ≡ consed c (read_quoted s)
unfolding read_quoted
read_quoted-other c [] h = ground arith
read_quoted-other c (d ∷ s) h = ground arith

read_quoted-pair : (s : Text) → read_quoted (b'"' ∷ b'"' ∷ s) ≡ consed b'"' (read_quoted s)
unfolding read_quoted
read_quoted-pair s = refl

read-double :
    (s rest : Text)
    → IsBoundary rest
    → read_quoted (double_quotes s ++ b'"' ∷ rest) ≡ some (s, rest)
unfolding double_quotes
read-double [] rest h = read_quoted-end rest h
read-double (c ∷ cs) rest h = elim (Bool-cases (c == b'"')) [
  | inl q ↦
      rw q
        (ground (arith, read_quoted-pair (double_quotes cs ++ b'"' ∷ rest), read-double cs rest h))
  | inr o ↦ rw o (
      ground
        (arith, read_quoted-other c (double_quotes cs ++ b'"' ∷ rest) o, read-double cs rest h))
]

-- A quoted identifier reads back as the identifier, whatever it holds, and ends where the quoting
-- ended it.
pub read_identifier-quote :
    (s rest : Text)
    → IsBoundary rest
    → read_identifier (quote_identifier s ++ rest) ≡ some (s, rest)
unfolding quote_identifier
read_identifier-quote s rest h = rw append_assoc (read-double s rest h)

quote_identifier-injective : (s t : Text) → quote_identifier s ≡ quote_identifier t → s ≡ t
quote_identifier-injective s t h =
    let both =
      sym (read_identifier-quote s [] tt)
      ∙ ap (λ q. read_identifier (q ++ [])) h
      ∙ read_identifier-quote t [] tt in
    cc both

-- Two schema-qualified names are equal only if the schema and the table are: no two tables share a
-- name in a statement.
pub qualified-injective : (a b c d : Text) → qualified a b ≡ qualified c d → (a ≡ c) × (b ≡ d)
unfolding qualified
qualified-injective a b c d h =
    let both =
      sym (read_identifier-quote a (b'.' ∷ quote_identifier b) refl)
      ∙ ap read_identifier h
      ∙ read_identifier-quote c (b'.' ∷ quote_identifier d) refl in
    (cc both, quote_identifier-injective b d (cc both))
