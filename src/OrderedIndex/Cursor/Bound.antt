-- ===== src/OrderedIndex/Cursor/Bound.antt =====
-- Which cursors internal/orderedindex/orderedindex.go takes.
use pgstore.Prelude.{
  ℕ, ◌≡◌, ◌≤◌, refl, Bool, true, false, Option, none, some, List, [], ◌∷◌, length, arith,
}
use pgstore.Prelude.Int.{ℤ, pos, int_eq_iff}
use pgstore.Text.{Text, text_eq_iff}
use pgstore.Records.{CursorKind, ranked_kind, due_kind}
use pgstore.Errors.{Result, ok, err, and_then}
use pgstore.Storage.{OrderedStorage}
use pgstore.OrderedIndex.Query.{Position}
use pgstore.OrderedIndex.Base64.{decode}
use pgstore.OrderedIndex.Cursor.{
  Envelope, Json, max_cursor_encoded, max_cursor_decoded, is_valid, decode_cursor,
  decode_ranked_cursor, decode_due_cursor, decode_raw, decode_header, decode_strict,
  decode_canonical, refused, ranked_decoded, due_decoded, bound_decoded, envelope_position,
}

module _ (storage : OrderedStorage) (json : Json) where
  -- An accepted cursor, of at most 4096 bytes, decodes to at most 3072, which are what the library
  -- writes of one envelope, whose header names this version and the kind that is asked for.
  abbrev pub Accepted : Text → CursorKind → Envelope → Type 0
  Accepted cursor kind e =
      (length cursor ≤ max_cursor_encoded)
      × (raw : List ℕ) × (decode cursor ≡ some raw)
      × (json.marshal e ≡ some raw)
      × (json.header raw ≡ some (some (pos 1), some (storage.kind_name kind)))
      × (length raw ≤ max_cursor_decoded)
      × (is_valid storage json e ≡ true)

  module _ (cursor : Text) (kind : CursorKind) (e : Envelope) where
    decode_canonical-ok :
        (raw : List ℕ) (found : Envelope) (canonical : Option (List ℕ))
        → decode_canonical storage json cursor kind raw found canonical ≡ ok e
        → (canonical ≡ some raw) × (found ≡ e) × (is_valid storage json e ≡ true)
    unfolding decode_canonical refused
    decode_canonical-ok raw found none h = absurd (cc)
    decode_canonical-ok raw found (some canonical) h = ground (arith, text_eq_iff canonical raw)

    decode_strict-ok :
        (raw : List ℕ) (read : Option (Envelope × Bool))
        → decode_strict storage json cursor kind raw read ≡ ok e
        → (json.marshal e ≡ some raw) × (is_valid storage json e ≡ true)
    unfolding decode_strict refused
    decode_strict-ok raw none h = absurd (cc)
    decode_strict-ok raw (some (found, true)) h = absurd (cc)
    decode_strict-ok raw (some (found, false)) h =
        let (written, same, valid) = decode_canonical-ok raw found (json.marshal found) h in
        (rw same at written, valid)

    decode_header-ok :
        (raw : List ℕ) (header : Option (Option ℤ × Option Text))
        → decode_header storage json cursor kind raw header ≡ ok e
        → (header ≡ some (some (pos 1), some (storage.kind_name kind)))
          × (decode_strict storage json cursor kind raw (json.strict raw) ≡ ok e)
    unfolding decode_header refused
    decode_header-ok raw none h = absurd (cc)
    decode_header-ok raw (some (none, k)) h = absurd (cc)
    decode_header-ok raw (some (some version, none)) h = absurd (cc)
    decode_header-ok raw (some (some version, some k)) h =
        ground (arith, text_eq_iff k (storage.kind_name kind), int_eq_iff version (pos 1))

    decode_raw-ok :
        (read : Option (List ℕ))
        → decode_raw storage json cursor kind read ≡ ok e
        → (raw : List ℕ) × (read ≡ some raw)
          × (length raw ≤ max_cursor_decoded)
          × (decode_header storage json cursor kind raw (json.header raw) ≡ ok e)
    unfolding decode_raw refused
    decode_raw-ok none h = absurd (cc)
    decode_raw-ok (some raw) h = (raw, refl, ground arith, ground arith)

    decode_cursor-ok : decode_cursor storage json cursor kind ≡ ok e → Accepted cursor kind e
    unfolding decode_cursor refused
    decode_cursor-ok h =
        let small : length cursor ≤ max_cursor_encoded = ground arith in
        let read : decode_raw storage json cursor kind (decode cursor) ≡ ok e = ground arith in
        let (raw, from, short, inside) = decode_raw-ok (decode cursor) read in
        let (header, strict) = decode_header-ok raw (json.header raw) inside in
        let (written, valid) = decode_strict-ok raw (json.strict raw) strict in
        (small, raw, from, written, header, short, valid)

ranked_envelope-ok :
    (storage : OrderedStorage) (json : Json) (cursor namespace scope : Text) (p : Position)
    (r : Result Envelope)
    → and_then r (ranked_decoded storage json cursor namespace scope) ≡ ok (some p)
    → (e : Envelope) × (r ≡ ok e)
      × (e.namespace ≡ namespace)
      × (e.ranking_scope ≡ scope)
      × (e.due_bound ≡ none)
      × (p ≡ envelope_position e)
unfolding ranked_decoded
ranked_envelope-ok storage json cursor namespace scope p (err x) h = absurd (cc)
ranked_envelope-ok storage json cursor namespace scope p (ok e) h =
    let facts : (e.namespace ≡ namespace)
        × (e.ranking_scope ≡ scope)
        × (e.due_bound ≡ none)
        × (p ≡ envelope_position e) =
      ground (arith, text_eq_iff e.namespace namespace, text_eq_iff e.ranking_scope scope) in
    (e, refl, facts.0, facts.1, facts.2, facts.3)

bound_decoded-ok :
    (storage : OrderedStorage) (json : Json) (cursor namespace : Text) (bound : ℤ) (p : Position)
    (e : Envelope) (found : Option ℤ)
    → bound_decoded storage json cursor namespace bound e found ≡ ok (some p)
    → (e.namespace ≡ namespace) × (found ≡ some bound) × (p ≡ envelope_position e)
unfolding bound_decoded
bound_decoded-ok storage json cursor namespace bound p e none h = absurd (cc)
bound_decoded-ok storage json cursor namespace bound p e (some b) h =
    ground (arith, text_eq_iff e.namespace namespace, int_eq_iff b bound)

due_envelope-ok :
    (storage : OrderedStorage) (json : Json) (cursor namespace : Text) (bound : ℤ) (p : Position)
    (r : Result Envelope)
    → and_then r (due_decoded storage json cursor namespace bound) ≡ ok (some p)
    → (e : Envelope) × (r ≡ ok e)
      × (e.namespace ≡ namespace)
      × (e.ranking_scope ≡ [])
      × (e.due_bound ≡ some bound)
      × (p ≡ envelope_position e)
unfolding due_decoded
due_envelope-ok storage json cursor namespace bound p (err x) h = absurd (cc)
due_envelope-ok storage json cursor namespace bound p (ok e) h =
    let split : (e.ranking_scope ≡ [])
        × (bound_decoded storage json cursor namespace bound e e.due_bound ≡ ok (some p)) =
      ground arith in
    let (named, limited, placed) =
      bound_decoded-ok storage json cursor namespace bound p e e.due_bound split.1 in
    (e, refl, named, split.0, limited, placed)

-- A cursor that ListRanked takes as a position is the text of one envelope, at most 4096 bytes long and
-- 3072 decoded, with this version and the ranked kind in its header, with valid names, and made for the namespace
-- and the ranking scope of this call.
pub ranked_cursor_bound :
    (storage : OrderedStorage) (json : Json) (cursor namespace scope : Text) (p : Position)
    → decode_ranked_cursor storage json cursor namespace scope ≡ ok (some p)
    → (e : Envelope) × Accepted storage json cursor ranked_kind e
      × (e.namespace ≡ namespace)
      × (e.ranking_scope ≡ scope)
      × (e.due_bound ≡ none)
      × (p ≡ envelope_position e)
unfolding decode_ranked_cursor
ranked_cursor_bound storage json [] namespace scope p h = absurd (cc)
ranked_cursor_bound storage json (c ∷ cs) namespace scope p h =
    let (e, read, named, scoped, free, placed) =
      ranked_envelope-ok storage json (c ∷ cs) namespace scope p
        (decode_cursor storage json (c ∷ cs) ranked_kind) h in
    (e, decode_cursor-ok storage json (c ∷ cs) ranked_kind e read, named, scoped, free, placed)

-- A cursor that ListDue takes as a position is the text of one envelope, at most 4096 bytes long and
-- 3072 decoded, with
-- this version and the due kind in its header, with valid names and no ranking scope, and made for the
-- namespace and the bound of this call.
pub due_cursor_bound :
    (storage : OrderedStorage) (json : Json) (cursor namespace : Text) (bound : ℤ) (p : Position)
    → decode_due_cursor storage json cursor namespace bound ≡ ok (some p)
    → (e : Envelope) × Accepted storage json cursor due_kind e
      × (e.namespace ≡ namespace)
      × (e.ranking_scope ≡ [])
      × (e.due_bound ≡ some bound)
      × (p ≡ envelope_position e)
unfolding decode_due_cursor
due_cursor_bound storage json [] namespace bound p h = absurd (cc)
due_cursor_bound storage json (c ∷ cs) namespace bound p h =
    let (e, read, named, scoped, limited, placed) =
      due_envelope-ok storage json (c ∷ cs) namespace bound p
        (decode_cursor storage json (c ∷ cs) due_kind) h in
    (e, decode_cursor-ok storage json (c ∷ cs) due_kind e read, named, scoped, limited, placed)
