-- ===== src/Migrations/Render.antt =====
-- The rendering of a migration in migrate of migrations.go: strings.ReplaceAll for each entry of
-- the map `replacements`, in the order in which Go walks the map.
use pgstore.Prelude.{
  ℕ, zero, suc, true, false, Option, none, some, List, [], ◌∷◌, ◌++◌, length, drop, if◌then◌else◌,
}
use pgstore.Text.{Text, codes, is_prefix}
use pgstore.Postgres.{quote_identifier}

-- The map's keys.
pub data Token : Type 0 where
  in_schema ledger_scopes ledger_records kv leases : Token
  ordered_scopes ordered_records ordered_order_idx ordered_rank_idx ordered_due_idx : Token

abbrev pub key : Token → Text
key in_schema = codes "{{schema}}"
key ledger_scopes = codes "{{ledger_scopes}}"
key ledger_records = codes "{{ledger_records}}"
key kv = codes "{{kv}}"
key leases = codes "{{leases}}"
key ordered_scopes = codes "{{ordered_scopes}}"
key ordered_records = codes "{{ordered_records}}"
key ordered_order_idx = codes "{{ordered_order_idx}}"
key ordered_rank_idx = codes "{{ordered_rank_idx}}"
key ordered_due_idx = codes "{{ordered_due_idx}}"

abbrev pub keys : List Token
keys =
    in_schema ∷ ledger_scopes ∷ ledger_records ∷ kv ∷ leases ∷ ordered_scopes ∷ ordered_records
    ∷ ordered_order_idx ∷ ordered_rank_idx ∷ ordered_due_idx ∷ []

-- The map's values.
unfoldable pub replacement : Text → Text → Token → Text
unfolding quote_identifier
replacement schema prefix in_schema = quote_identifier schema
replacement schema prefix ledger_scopes = quote_identifier (prefix ++ codes "ledger_scopes")
replacement schema prefix ledger_records = quote_identifier (prefix ++ codes "ledger_records")
replacement schema prefix kv = quote_identifier (prefix ++ codes "kv")
replacement schema prefix leases = quote_identifier (prefix ++ codes "leases")
replacement schema prefix ordered_scopes = quote_identifier (prefix ++ codes "ordered_scopes")
replacement schema prefix ordered_records = quote_identifier (prefix ++ codes "ordered_records")
replacement schema prefix ordered_order_idx = quote_identifier (prefix ++ codes "ordered_order_idx")
replacement schema prefix ordered_rank_idx = quote_identifier (prefix ++ codes "ordered_rank_idx")
replacement schema prefix ordered_due_idx = quote_identifier (prefix ++ codes "ordered_due_idx")

-- The rest of a text of which the first bytes are skipped, with the occurrences of `old` replaced.
unfoldable pub replace_from : Text → Text → ℕ → Text → Text
unfolding is_prefix
replace_from old new skip [] = []
replace_from old new (suc skip) (c ∷ cs) = replace_from old new skip cs
replace_from old new zero (c ∷ cs) = elim (is_prefix old (c ∷ cs)) [
  | true ↦ new ++ replace_from old new (length (drop 1 old)) cs
  | false ↦ c ∷ replace_from old new zero cs
]

-- strings.ReplaceAll, for an `old` that is not empty
abbrev pub replace_all : Text → Text → Text → Text
replace_all old new s = replace_from old new zero s

-- `for token, identifier := range replacements`, in an order of the keys
unfoldable pub rendered : (Token → Text) → List Token → Text → Text
unfolding replace_from
rendered new [] statement = statement
rendered new (t ∷ order) statement = rendered new order (replace_all (key t) (new t) statement)

-- The key, of those listed, that a text starts with.
unfoldable pub first_match : List Token → Text → Option Token
unfolding is_prefix
first_match [] s = none
first_match (t ∷ ts) s = let rest = first_match ts s in if is_prefix (key t) s then some t else rest

-- The reference: one pass from left to right, which replaces each listed key where it stands.
unfoldable pub pass_from : (Token → Text) → List Token → ℕ → Text → Text
unfolding first_match
pass_from new ts skip [] = []
pass_from new ts (suc skip) (c ∷ cs) = pass_from new ts skip cs
pass_from new ts zero (c ∷ cs) = elim (first_match ts (c ∷ cs)) [
  | some t ↦ new t ++ pass_from new ts (length (drop 1 (key t))) cs
  | none ↦ c ∷ pass_from new ts zero cs
]

abbrev pub one_pass : (Token → Text) → List Token → Text → Text
one_pass new ts s = pass_from new ts zero s
