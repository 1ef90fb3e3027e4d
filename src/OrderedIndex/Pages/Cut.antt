-- ===== src/OrderedIndex/Pages/Cut.antt =====
-- The records that are read of a page of internal/orderedindex/orderedindex.go, and its cut at the
-- limit.
use pgstore.Prelude.{
  ℕ, zero, suc, ◌≡◌, ◌≤◌, ◌<◌, ◌⊎◌, inl, inr, refl, ap, ◌∙◌, Option, none, some, List, [], ◌∷◌,
  length, take, last, arith, ltb, Bool-cases,
}
use pgstore.Text.{Text}
use pgstore.Records.{OrderedRecord}
use pgstore.Errors.{Result, ok, err, and_then}
use pgstore.Storage.{OrderedStorage}
use pgstore.OrderedIndex.Sql.{Row}
use pgstore.OrderedIndex.Scan.{scan_record}
use pgstore.OrderedIndex.Walk.{more, take-take, take-all}
use pgstore.OrderedIndex.Pages.{Page, page_of, scan_rows, turn}

-- The page shows the first rows up to the limit, and has a cursor, that of its last record, just where
-- there are more.
abbrev pub Shows : OrderedStorage → (OrderedRecord → Result Text) → ℕ → List Row → Page → Type 0
Shows storage encode limit rows page =
    (scan_rows storage (take limit rows) ≡ ok page.records)
    × (((length rows ≤ limit) × (page.next_cursor ≡ []))
        ⊎ ((limit < length rows)
            × (r : OrderedRecord) × (last page.records ≡ some r)
            × (encode r ≡ ok page.next_cursor)))

and_then-ok :
    {A B : Type 0} (r : Result A) (f : A → Result B) (b : B)
    → and_then r f ≡ ok b
    → (a : A) × (r ≡ ok a) × (f a ≡ ok b)
and_then-ok (ok a) f b h = (a, refl, h)
and_then-ok (err e) f b h = absurd (cc)

scan_rows-cons :
    (storage : OrderedStorage) (r : Row) (rs : List Row) (records : List OrderedRecord)
    → scan_rows storage (r ∷ rs) ≡ ok records
    → (a : OrderedRecord) × (later : List OrderedRecord) × (scan_record storage r ≡ ok a)
      × (scan_rows storage rs ≡ ok later)
      × (a ∷ later ≡ records)
unfolding scan_rows
scan_rows-cons storage r rs records h =
    let (a, first, rest) = and_then-ok (scan_record storage r) _ records h in
    let (later, read, made) = and_then-ok (scan_rows storage rs) _ records rest in
    (a, later, first, read, cc)

scan_rows-length :
    (storage : OrderedStorage) (rows : List Row) (records : List OrderedRecord)
    → scan_rows storage rows ≡ ok records
    → length rows ≡ length records
unfolding scan_rows
scan_rows-length storage [] records h = ground arith
scan_rows-length storage (r ∷ rs) records h =
    let (a, later, first, read, made) = scan_rows-cons storage r rs records h in
    rw (← made) (ap suc (scan_rows-length storage rs later read))

scan_rows-take :
    (storage : OrderedStorage) (n : ℕ) (rows : List Row) (records : List OrderedRecord)
    → scan_rows storage rows ≡ ok records
    → scan_rows storage (take n rows) ≡ ok (take n records)
unfolding scan_rows take
scan_rows-take storage zero rows records h = refl
scan_rows-take storage (suc n) [] records h = ground arith
scan_rows-take storage (suc n) (r ∷ rs) records h =
    let (a, later, first, read, made) = scan_rows-cons storage r rs records h in
    rw (← made, first, scan_rows-take storage n rs later read) refl

turn-ok :
    (encode : OrderedRecord → Result Text) (records : List OrderedRecord) (page : Page)
    (o : Option OrderedRecord)
    → turn records encode o ≡ ok page
    → (page.records ≡ records)
      × (r : OrderedRecord) × (o ≡ some r)
      × (encode r ≡ ok page.next_cursor)
turn-ok encode records page none h = absurd (cc)
turn-ok encode records page (some r) h =
    let (cursor, made, whole) = and_then-ok (encode r) _ page h in
    let facts : (page.records ≡ records) × (cursor ≡ page.next_cursor) = ground arith in
    (facts.0, r, refl, made ∙ ap ok facts.1)

-- The cut of a page, by what the encoding of its last record gives.
turned :
    (encode : OrderedRecord → Result Text) (limit : ℕ) (records : List OrderedRecord) (page : Page)
    → page_of limit encode records ≡ ok page
    → ((length records ≤ limit) × (page.records ≡ records) × (page.next_cursor ≡ []))
      ⊎ ((limit < length records)
          × (page.records ≡ take limit records)
          × (r : OrderedRecord) × (last page.records ≡ some r)
          × (encode r ≡ ok page.next_cursor))
unfolding page_of
turned encode limit records page h = elim (Bool-cases (ltb limit (length records))) [
  | inl e ↦
      let (whole, r, found, made) =
        turn-ok encode (take limit records) page (last (take limit records)) (rw e at h) in
      inr (ground (arith, e), whole, r, ap last whole ∙ found, made)
  | inr e ↦ inl (ground (arith, e, h))
]

pub page_of-Shows :
    (storage : OrderedStorage) (encode : OrderedRecord → Result Text) (limit : ℕ) (rows : List Row)
    (records : List OrderedRecord) (page : Page)
    → scan_rows storage (take (suc limit) rows) ≡ ok records
    → page_of limit encode records ≡ ok page
    → Shows storage encode limit rows page
page_of-Shows storage encode limit rows records page h k =
    let same = scan_rows-length storage (take (suc limit) rows) records h in
    let most = more limit rows in
    elim (turned encode limit records page k) [
      | inl (few, whole, no_cursor) ↦
          let short : length rows ≤ limit = ground (arith, same, most, few) in
          (
            rw (take-all limit rows short, whole)
                (rw (take-all (suc limit) rows (omega (arith, short))) at h),
            inl (short, no_cursor),
          )
      | inr (many, cut, r, found, made) ↦ (
        rw (← take-take limit rows, cut)
            (scan_rows-take storage limit (take (suc limit) rows) records h),
        inr (ground (arith, same, most, many), r, found, made),
      )
    ]
