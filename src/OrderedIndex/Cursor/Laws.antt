-- ===== src/OrderedIndex/Cursor/Laws.antt =====
-- What a cursor of internal/orderedindex/orderedindex.go stands for.
use pgstore.Prelude.{ℕ, ◌≡◌, ◌≤◌, ◌<◌, refl, ◌∙◌, true, false, some, List, [], ◌∷◌, length, arith}
use pgstore.Prelude.Int.{ℤ, pos, int_eq_iff}
use pgstore.Text.{Text, text_eq_iff}
use pgstore.Records.{OrderedRecord, CursorKind, ranked_kind, due_kind}
use pgstore.Errors.{ok, and_then}
use pgstore.Storage.{OrderedStorage}
use pgstore.OrderedIndex.Base64.{IsBytes, encode, decode-encode, length-encode, encode-not_empty}
use pgstore.OrderedIndex.Cursor.{
  Envelope, Json, ranked_envelope, due_envelope, ranked_position, due_position, max_cursor_decoded,
  is_valid, encode_cursor, encoded, encode_ranked_cursor, encode_due_cursor, decode_cursor,
  decode_ranked_cursor, decode_due_cursor, decode_raw, decode_header, decode_strict,
  decode_canonical, ranked_decoded, due_decoded, bound_decoded,
}

-- The library writes an envelope as some bytes and reads them back as that envelope, alone.
pub record ReadsBack (json : Json) (e : Envelope) (raw : List ℕ) : Type 0 where
  pub marshalled : json.marshal e ≡ some raw
  pub bytes : IsBytes raw
  pub not_empty : 0 < length raw
  pub header_read : json.header raw ≡ some (some e.version, some e.kind)
  pub envelope_read : json.strict raw ≡ some (e, false)

module _ (storage : OrderedStorage) (json : Json) where
  decode_cursor-encode :
      (e : Envelope) (raw : List ℕ) (kind : CursorKind)
      → ReadsBack json e raw
      → length raw ≤ max_cursor_decoded
      → is_valid storage json e ≡ true
      → e.version ≡ pos 1
      → e.kind ≡ storage.kind_name kind
      → decode_cursor storage json (encode raw) kind ≡ ok e
  unfolding decode_cursor decode_raw decode_header decode_strict decode_canonical
  decode_cursor-encode e raw kind reads short valid version same =
      rw
        (
          decode-encode raw reads.bytes,
          reads.header_read,
          reads.envelope_read,
          reads.marshalled,
          version,
          same,
        )
        (ground (
          arith,
          short,
          reads.not_empty,
          length-encode raw,
          text_eq_iff raw raw,
          text_eq_iff (storage.kind_name kind) (storage.kind_name kind),
          valid,
        ))

  ranked_cursor-some :
      (cursor namespace scope : Text)
      → 0 < length cursor
      → decode_ranked_cursor storage json cursor namespace scope
        ≡ and_then
            (decode_cursor storage json cursor ranked_kind)
            (ranked_decoded storage json cursor namespace scope)
  unfolding decode_ranked_cursor
  ranked_cursor-some [] namespace scope h = absurd (omega arith)
  ranked_cursor-some (c ∷ cs) namespace scope h = refl

  due_cursor-some :
      (cursor namespace : Text) (bound : ℤ)
      → 0 < length cursor
      → decode_due_cursor storage json cursor namespace bound
        ≡ and_then
            (decode_cursor storage json cursor due_kind)
            (due_decoded storage json cursor namespace bound)
  unfolding decode_due_cursor
  due_cursor-some [] namespace bound h = absurd (omega arith)
  due_cursor-some (c ∷ cs) namespace bound h = refl

-- The cursor that a ranked page hands out is read back, for the same namespace and ranking scope, as
-- the position of the page's last record, if the names are valid, the ranking scope is not empty, and
-- the JSON library reads back what it writes of the envelope within 3072 bytes.
pub decode_ranked_cursor-encode :
    (storage : OrderedStorage) (json : Json) (namespace scope : Text) (r : OrderedRecord)
    (raw : List ℕ)
    → ReadsBack json (ranked_envelope storage namespace scope (ranked_position r)) raw
    → length raw ≤ max_cursor_decoded
    → is_valid storage json (ranked_envelope storage namespace scope (ranked_position r)) ≡ true
    → 0 < length scope
    → (encode_ranked_cursor storage json namespace scope r ≡ ok (encode raw))
      × (decode_ranked_cursor storage json (encode raw) namespace scope
          ≡ ok (some (ranked_position r)))
unfolding encode_ranked_cursor encode_cursor encoded ranked_decoded
decode_ranked_cursor-encode storage json namespace scope r raw reads short valid named = (
  rw reads.marshalled refl,
  ranked_cursor-some storage json (encode raw) namespace scope
        (encode-not_empty raw reads.not_empty)
      ∙ rw (decode_cursor-encode storage json _ raw ranked_kind reads short valid refl refl)
          (ground (arith, named, text_eq_iff namespace namespace, text_eq_iff scope scope)),
)

-- The cursor that a due page hands out is read back, for the same namespace and bound, as the position
-- of the page's last record, if the names are valid and the JSON library reads back what it writes of
-- the envelope within 3072 bytes.
pub decode_due_cursor-encode :
    (storage : OrderedStorage) (json : Json) (namespace : Text) (bound : ℤ) (r : OrderedRecord)
    (raw : List ℕ)
    → ReadsBack json (due_envelope storage namespace bound (due_position r)) raw
    → length raw ≤ max_cursor_decoded
    → is_valid storage json (due_envelope storage namespace bound (due_position r)) ≡ true
    → (encode_due_cursor storage json namespace bound r ≡ ok (encode raw))
      × (decode_due_cursor storage json (encode raw) namespace bound ≡ ok (some (due_position r)))
unfolding encode_due_cursor encode_cursor encoded due_decoded bound_decoded
decode_due_cursor-encode storage json namespace bound r raw reads short valid = (
  rw reads.marshalled refl,
  due_cursor-some storage json (encode raw) namespace bound (encode-not_empty raw reads.not_empty)
      ∙ rw (decode_cursor-encode storage json _ raw due_kind reads short valid refl refl)
          (ground (arith, text_eq_iff namespace namespace, int_eq_iff bound bound)),
)
