-- ===== src/Migrations/Inert.antt =====
-- The identifiers that migrate of migrations.go puts in for the keys can make no new key.
use pgstore.Prelude.{ℕ, ◌≡◌, refl, ◌∙◌, true, [], ◌∷◌, ◌++◌, arith}
use pgstore.Text.{Text}
use pgstore.Postgres.{double_quotes, quote_identifier}
use pgstore.Options.{
  valid_identifier, all_identifier_bytes, max_postgres_identifier_bytes, max_table_prefix_bytes,
}
use pgstore.Migrations.Render.{
  Token, in_schema, ledger_scopes, ledger_records, kv, leases, ordered_scopes, ordered_records,
  ordered_order_idx, ordered_rank_idx, ordered_due_idx, replacement,
}
use pgstore.Migrations.Passes.{IsInert, no_brace}

no_brace-double : (s : Text) → no_brace (double_quotes s) ≡ no_brace s
unfolding no_brace double_quotes
no_brace-double [] = refl
no_brace-double (c ∷ cs) = ground (arith, no_brace-double cs)

no_brace-append : (a b : Text) → no_brace a ≡ true → no_brace b ≡ true → no_brace (a ++ b) ≡ true
unfolding no_brace
no_brace-append [] b h k = k
no_brace-append (c ∷ cs) b h k = ground (arith, no_brace-append cs b)

no_brace-bytes : (s : Text) → all_identifier_bytes s ≡ true → no_brace s ≡ true
unfolding no_brace all_identifier_bytes
no_brace-bytes [] h = refl
no_brace-bytes (c ∷ cs) h = ground (arith, no_brace-bytes cs)

no_brace-identifier :
    (s : Text) (max_bytes : ℕ) → valid_identifier s max_bytes ≡ true → no_brace s ≡ true
unfolding no_brace valid_identifier
no_brace-identifier [] max_bytes h = refl
no_brace-identifier (c ∷ cs) max_bytes h = ground (arith, no_brace-bytes cs)

quote_identifier-IsInert : (s : Text) → no_brace s ≡ true → IsInert (quote_identifier s)
unfolding quote_identifier no_brace
quote_identifier-IsInert s h = record {
  rest = double_quotes s ++ b'"' ∷ [];
  quoted = refl;
  free = no_brace-append (double_quotes s) (b'"' ∷ []) (no_brace-double s ∙ h) refl;
}

module _ (schema prefix : Text) (s : valid_identifier schema max_postgres_identifier_bytes ≡ true)
    (p : valid_identifier prefix max_table_prefix_bytes ≡ true) where
  prefixed-IsInert :
      (suffix : Text) → no_brace suffix ≡ true → IsInert (quote_identifier (prefix ++ suffix))
  prefixed-IsInert suffix h =
      quote_identifier-IsInert (prefix ++ suffix)
        (no_brace-append prefix suffix (no_brace-identifier prefix max_table_prefix_bytes p) h)

  pub replacement-IsInert : (t : Token) → IsInert (replacement schema prefix t)
  unfolding replacement no_brace
  replacement-IsInert in_schema =
      quote_identifier-IsInert schema (no_brace-identifier schema max_postgres_identifier_bytes s)
  replacement-IsInert ledger_scopes = prefixed-IsInert _ refl
  replacement-IsInert ledger_records = prefixed-IsInert _ refl
  replacement-IsInert kv = prefixed-IsInert _ refl
  replacement-IsInert leases = prefixed-IsInert _ refl
  replacement-IsInert ordered_scopes = prefixed-IsInert _ refl
  replacement-IsInert ordered_records = prefixed-IsInert _ refl
  replacement-IsInert ordered_order_idx = prefixed-IsInert _ refl
  replacement-IsInert ordered_rank_idx = prefixed-IsInert _ refl
  replacement-IsInert ordered_due_idx = prefixed-IsInert _ refl
