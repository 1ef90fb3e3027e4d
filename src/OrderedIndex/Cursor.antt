-- ===== src/OrderedIndex/Cursor.antt =====
-- The cursors of internal/orderedindex/orderedindex.go. A cursor is its bytes. encoding/json is a
-- parameter.
pub mod Laws
pub mod Bound
use pgstore.Prelude.{
  ℕ, Bool, true, false, ◌||◌, ◌&&◌, not, Option, none, some, List, [], ◌∷◌, length, ltb, ◌==◌,
  if◌then◌else◌,
}
use pgstore.Prelude.Int.{ℤ, pos, int_eq}
use pgstore.Text.{Text, text_eq}
use pgstore.Records.{
  OrderedRecord, CursorKind, CursorRule, ranked_kind, due_kind, malformed, unknown_version,
  wrong_kind, query_mismatch,
}
use pgstore.Errors.{Error, Result, ok, err, and_then, panicked, invalid_cursor}
use pgstore.Storage.{OrderedStorage}
use pgstore.OrderedIndex.Query.{Position}
use pgstore.OrderedIndex.Base64.{encode, decode}

-- cursorEnvelope; no due bound is a nil pointer.
pub record Envelope : Type 0 where
  pub version : ℤ
  pub kind : Text
  pub namespace : Text
  pub ranking_scope : Text
  pub due_bound : Option ℤ
  pub position : ℤ
  pub stable_key : Text
  pub ordering_scope : Text

-- What the code uses of encoding/json.
pub record Json : Type 0 where
  -- json.Marshal of an envelope; `none` is an error.
  pub marshal : Envelope → Option (List ℕ)
  -- json.Unmarshal into pointers to the version and to the kind; `none` is an error.
  pub header : List ℕ → Option (Option ℤ × Option Text)
  -- A Decoder with DisallowUnknownFields: the envelope, and whether another value can be read.
  pub strict : List ℕ → Option (Envelope × Bool)

abbrev pub max_cursor_encoded : ℕ
max_cursor_encoded = 4096

abbrev pub max_cursor_decoded : ℕ
max_cursor_decoded = 3072

abbrev is_empty : List ℕ → Bool
is_empty [] = true
is_empty (x ∷ xs) = false

abbrev fails : Option Error → Bool
fails none = false
fails (some e) = true

abbrev is_bound : Option ℤ → Bool
is_bound none = false
is_bound (some b) = true

abbrev pub ranked_envelope : OrderedStorage → Text → Text → Position → Envelope
ranked_envelope storage namespace scope p = record {
  version = pos 1;
  kind = storage.kind_name ranked_kind;
  namespace = namespace;
  ranking_scope = scope;
  due_bound = none;
  position = p.number;
  stable_key = p.stable_key;
  ordering_scope = p.ordering_scope;
}

abbrev pub due_envelope : OrderedStorage → Text → ℤ → Position → Envelope
due_envelope storage namespace bound p = record {
  version = pos 1;
  kind = storage.kind_name due_kind;
  namespace = namespace;
  ranking_scope = [];
  due_bound = some bound;
  position = p.number;
  stable_key = p.stable_key;
  ordering_scope = p.ordering_scope;
}

abbrev pub ranked_position : OrderedRecord → Position
ranked_position r = record {
  number = r.rank.value;
  stable_key = r.id.stable_key;
  ordering_scope = r.id.ordering_scope;
}

abbrev pub due_position : OrderedRecord → Position
due_position r = record {
  number = r.due.unix_millis;
  stable_key = r.id.stable_key;
  ordering_scope = r.id.ordering_scope;
}

abbrev pub envelope_position : Envelope → Position
envelope_position e = record {
  number = e.position;
  stable_key = e.stable_key;
  ordering_scope = e.ordering_scope;
}

module _ (storage : OrderedStorage) (json : Json) where
  encoded : Option (List ℕ) → Result Text
  encoded none = err (panicked "ordered cursor scalar marshal failed")
  encoded (some raw) = ok (encode raw)

  unfoldable pub encode_cursor : Envelope → Result Text
  unfolding encoded
  encode_cursor e = encoded (json.marshal e)

  unfoldable pub encode_ranked_cursor : Text → Text → OrderedRecord → Result Text
  encode_ranked_cursor namespace scope r =
      encode_cursor (ranked_envelope storage namespace scope (ranked_position r))

  unfoldable pub encode_due_cursor : Text → ℤ → OrderedRecord → Result Text
  encode_due_cursor namespace bound r =
      encode_cursor (due_envelope storage namespace bound (due_position r))

  -- The names in an envelope, where a ranking scope may be left out.
  abbrev pub is_valid : Envelope → Bool
  is_valid e =
      not (fails (storage.validate_name e.namespace))
      && not (fails (storage.validate_stable_key e.stable_key))
      && not (fails (storage.validate_name e.ordering_scope))
      && (is_empty e.ranking_scope || not (fails (storage.validate_name e.ranking_scope)))

  module _ (cursor : Text) (expected : CursorKind) where
    refused : {A : Type 0} → CursorRule → Result A
    refused rule = err (invalid_cursor expected cursor rule)

    decode_canonical : List ℕ → Envelope → Option (List ℕ) → Result Envelope
    unfolding refused
    decode_canonical raw e none = refused malformed
    decode_canonical raw e (some canonical) =
        if not (text_eq canonical raw) || not (is_valid e) then refused malformed else ok e

    decode_strict : List ℕ → Option (Envelope × Bool) → Result Envelope
    unfolding refused decode_canonical
    decode_strict raw none = refused malformed
    decode_strict raw (some (e, more)) =
        if more then refused malformed else decode_canonical raw e (json.marshal e)

    decode_header : List ℕ → Option (Option ℤ × Option Text) → Result Envelope
    unfolding refused decode_strict
    decode_header raw (some (some version, some kind)) =
        if not (int_eq version (pos 1))
        then refused unknown_version
        else if not (text_eq kind (storage.kind_name expected))
        then if text_eq kind (storage.kind_name ranked_kind)
            || text_eq kind (storage.kind_name due_kind)
          then refused wrong_kind
          else refused malformed
        else decode_strict raw (json.strict raw)
    decode_header raw (some (some version, none)) = refused malformed
    decode_header raw (some (none, kind)) = refused malformed
    decode_header raw none = refused malformed

    decode_raw : Option (List ℕ) → Result Envelope
    unfolding refused decode_header
    decode_raw none = refused malformed
    decode_raw (some raw) =
        if is_empty raw || ltb max_cursor_decoded (length raw)
        then refused malformed
        else decode_header raw (json.header raw)

    unfoldable pub decode_cursor : Result Envelope
    unfolding refused decode_raw
    decode_cursor =
        if ltb max_cursor_encoded (length cursor)
        then refused malformed
        else decode_raw (decode cursor)

  abbrev mismatched : CursorKind → Text → {A : Type 0} → Result A
  mismatched kind cursor = err (invalid_cursor kind cursor query_mismatch)

  ranked_decoded : Text → Text → Text → Envelope → Result (Option Position)
  ranked_decoded cursor namespace scope e =
      if is_empty e.ranking_scope || is_bound e.due_bound
      then err (invalid_cursor ranked_kind cursor malformed)
      else if not (text_eq e.namespace namespace) || not (text_eq e.ranking_scope scope)
      then mismatched ranked_kind cursor
      else ok (some (envelope_position e))

  -- `none` is the empty cursor, for the first page.
  unfoldable pub decode_ranked_cursor : Text → Text → Text → Result (Option Position)
  unfolding ranked_decoded
  decode_ranked_cursor [] namespace scope = ok none
  decode_ranked_cursor (c ∷ cs) namespace scope =
      and_then (decode_cursor (c ∷ cs) ranked_kind) (ranked_decoded (c ∷ cs) namespace scope)

  bound_decoded : Text → Text → ℤ → Envelope → Option ℤ → Result (Option Position)
  bound_decoded cursor namespace bound e none = err (invalid_cursor due_kind cursor malformed)
  bound_decoded cursor namespace bound e (some b) =
      if not (text_eq e.namespace namespace) || not (int_eq b bound)
      then mismatched due_kind cursor
      else ok (some (envelope_position e))

  due_decoded : Text → Text → ℤ → Envelope → Result (Option Position)
  unfolding bound_decoded
  due_decoded cursor namespace bound e =
      if not (is_empty e.ranking_scope)
      then err (invalid_cursor due_kind cursor malformed)
      else bound_decoded cursor namespace bound e e.due_bound

  unfoldable pub decode_due_cursor : Text → Text → ℤ → Result (Option Position)
  unfolding due_decoded
  decode_due_cursor [] namespace bound = ok none
  decode_due_cursor (c ∷ cs) namespace bound =
      and_then (decode_cursor (c ∷ cs) due_kind) (due_decoded (c ∷ cs) namespace bound)
