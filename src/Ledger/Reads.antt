-- ===== src/Ledger/Reads.antt =====
-- Read, its cursor, Tip and Delete of internal/ledger/ledger.go.
use pgstore.Prelude.{
  ℕ, zero, suc, ◌+◌, ◌≤◌, ◌<◌, ◌≡◌, refl, ◌∙◌, false, Option, none, some, List, [], ◌∷◌, arith, ltb,
  leb, ◌==◌, inl, inr, if◌then◌else◌, Option-cases, sym, ap, length, get_elem?, drop,
}
use native.Mathlib.Decide.{dec_lt}
use pgstore.Text.{Text}
use pgstore.Errors.{Error, ok, err, end_of_file}
use pgstore.Driver.{Driver, World, delivered}
use pgstore.Storage.{Storage}
use pgstore.Guard.Defs.{Context}
use pgstore.Ledger.Sql.{
  Tables, Entry, bigint_max, find_tip, find_payload, insert_by_seq, records_from,
}
use pgstore.Ledger.Moves.{tip_at, payload_at}
use pgstore.Ledger.{Store, Cursor, read, tip, advance}

-- What Read returns for a name from a sequence on: increasing sequences of that name.
abbrev pub Increasing : ℕ → List Entry → Type 0
Increasing low [] = Unit
Increasing low (r ∷ rs) = (low ≤ r.seq) × Increasing r.seq rs

-- The payload that a list of records of one name has at a sequence.
abbrev pub listed : ℕ → List Entry → Option (List ℕ)
listed seq [] = none
listed seq (r ∷ rs) = if r.seq == seq then some r.payload else listed seq rs

insert_by_seq-Increasing :
    (low : ℕ) (r : Entry) (rs : List Entry)
    → low ≤ r.seq
    → Increasing low rs
    → Increasing low (insert_by_seq r rs)
unfolding insert_by_seq
insert_by_seq-Increasing low r [] h i = (h, tt)
insert_by_seq-Increasing low r (x ∷ xs) h i = ground (arith, insert_by_seq-Increasing x.seq r xs)

records_from-Increasing :
    (name : Text) (from : ℕ) (rs : List Entry) → Increasing from (records_from name from rs)
unfolding records_from
records_from-Increasing name from [] = tt
records_from-Increasing name from (r ∷ rs) = ground (
  arith,
  records_from-Increasing name from rs,
  insert_by_seq-Increasing from r (records_from name from rs),
)

listed-insert_by_seq :
    (q : ℕ) (r : Entry) (rs : List Entry)
    → listed q (insert_by_seq r rs) ≡ (if r.seq == q then some r.payload else listed q rs)
unfolding insert_by_seq
listed-insert_by_seq q r [] = refl
listed-insert_by_seq q r (x ∷ xs) = ground (arith, listed-insert_by_seq q r xs)

listed-records_from :
    (q : ℕ) (name : Text) (from : ℕ) (rs : List Entry)
    → listed q (records_from name from rs) ≡ (if leb from q then find_payload name q rs else none)
unfolding records_from find_payload
listed-records_from q name from [] = ground arith
listed-records_from q name from (r ∷ rs) = ground (
  arith,
  listed-records_from q name from rs,
  listed-insert_by_seq q r (records_from name from rs),
)

-- A caller that calls Next until it fails: the records, and the error that ended them, or `none`
-- where the calls ran out first.
pub drain : ℕ → Cursor → List Entry × Option Error
drain zero c = ([], none)
drain (suc fuel) c = elim (advance c) [
  | ok (r, c') ↦ let rest = drain fuel c' in (r ∷ rest.0, rest.1)
  | err e ↦ ([], some e)
]

drop_past : (p : ℕ) (xs : List Entry) → length xs ≤ p → drop p xs ≡ []
drop_past zero [] h = refl
drop_past zero (x ∷ xs) h = absurd (omega arith)
drop_past (suc p) [] h = refl
drop_past (suc p) (x ∷ xs) h = drop_past p xs (omega arith)

drop_at :
    (p : ℕ) (xs : List Entry)
    → p < length xs
    → (x : Entry) × (get_elem? xs p ≡ some x) × (drop p xs ≡ x ∷ drop (suc p) xs)
drop_at p [] h = absurd (omega arith)
drop_at zero (x ∷ xs) h = (x, refl, refl)
drop_at (suc p) (x ∷ xs) h = drop_at p xs (omega arith)

advance_past : (c : Cursor) → length c.records ≤ c.position → advance c ≡ err end_of_file
unfolding advance
advance_past c h = ground arith

advance_at :
    (c : Cursor) (x : Entry)
    → c.closed ≡ false
    → c.position < length c.records
    → get_elem? c.records c.position ≡ some x
    → advance c ≡ ok (x, record c { position = c.position + 1 })
unfolding advance
advance_at c x o h e = ground arith

-- A cursor that is open serves the records from its position on, each once and in order, and the
-- call after the last of them fails with io.EOF: one call more than the records left is enough.
pub drain_lem :
    (fuel : ℕ) (c : Cursor)
    → c.closed ≡ false
    → 0 < fuel
    → length c.records < fuel + c.position
    → drain fuel c ≡ (drop c.position c.records, some end_of_file)
unfolding drain
drain_lem zero c o more h = absurd (omega arith)
drain_lem (suc fuel) c o more h = elim (dec_lt c.position (length c.records)) [
  | yes lt ↦
      let next : c.position + 1 ≡ suc c.position = omega arith in
      let (x, at, rest) = drop_at c.position c.records lt in
      rw (advance_at c x o lt at, drain)
        (rw rest (
          ap (λ (r : List Entry × Option Error). (x ∷ r.0, r.1))
            (drain_lem fuel (record c { position = c.position + 1 }) o (omega arith) (omega arith)
              ∙ ap (λ p. (drop p c.records, some end_of_file)) next)))
  | no ge ↦
      rw (advance_past c (omega arith), drain)
        (ap (λ rs. (rs, some end_of_file)) (sym (drop_past c.position c.records (omega arith))))
]

module _ (driver : Driver Tables) (storage : Storage) (s : Store) where
  -- Read of a valid name from a sequence that fits a bigint, outside a transaction and its rows
  -- delivered, returns an open cursor at the start of the records of that name from the sequence on
  -- (from 1 at least): in increasing order, and at each sequence the payload that the tables hold
  -- there.
  pub read_listing :
      (c : Context) (name : Text) (from q : ℕ) (w : World Tables)
      → storage.validate_name name ≡ none
      → w.locked ≡ false
      → driver.outcome (suc w.now) ≡ delivered
      → driver.outcome (suc (suc w.now)) ≡ delivered
      → from ≤ bigint_max
      → let before = driver.others (suc w.now) w.db in
        let low = if ltb from 1 then 1 else from in
        (cursor : Cursor) × ((read driver storage s (some c) name from w).0 ≡ ok cursor)
        × (cursor.closed ≡ false)
        × (cursor.position ≡ 0)
        × Increasing low cursor.records
        × (listed q cursor.records ≡ (if leb low q then payload_at before name q else none))
  unfolding read
  read_listing c name from q w valid free up rows fits =
      let before = driver.others (suc w.now) w.db in
      let low : ℕ = if ltb from 1 then 1 else from in
      (
        record {
          operation_timeout = s.operation_timeout;
          records = records_from name low before.records;
          position = 0;
          closed = false;
        },
        ground arith,
        refl,
        refl,
        records_from-Increasing name low before.records,
        listed-records_from q name low before.records,
      )

  -- Tip of a valid name, outside a transaction and its answer delivered, returns the tip that the
  -- tables hold: 0 for a name without a scope.
  pub tip_reads :
      (c : Context) (name : Text) (w : World Tables)
      → storage.validate_name name ≡ none
      → w.locked ≡ false
      → driver.outcome (suc w.now) ≡ delivered
      → ((tip driver storage s (some c) name w).0
          ≡ ok (tip_at (driver.others (suc w.now) w.db) name))
  unfolding tip
  tip_reads c name w valid free up =
      elim (Option-cases (find_tip name (driver.others (suc w.now) w.db).scopes)) [
        | inl e ↦ ground (arith, e)
        | inr (t, e) ↦ ground (arith, e)
      ]
