-- ===== src/Lease/Sql.antt =====
-- The table leases of migrations/0002_leases.sql and the statements of internal/lease/lease.go on
-- it. Times are in nanoseconds. A statement starts at one reading of clock_timestamp(); `after` gives
-- the next reading that it takes.
use pgstore.Prelude.{
  ℕ, ◌+◌, ◌*◌, ◌-◌, ◌^◌, Bool, false, ◌&&◌, Option, none, some, List, [], ◌∷◌, ltb, ◌==◌,
  if◌then◌else◌,
}
use pgstore.Text.{Text, Bytes, text_eq}
use pgstore.Errors.{Result, ok, err, no_rows, pg_error}
use pgstore.Driver.{Stmt}

-- math.MaxInt64, and the largest bigint
abbrev pub bigint_max : ℕ
bigint_max = 2 ^ 63 - 1

-- `epoch` and `revision` have CHECK (... >= 0).
pub record Row : Type 0 where
  pub name : Text
  pub epoch : ℕ
  pub holder : Bytes
  pub expires_at : Option ℕ
  pub revision : ℕ

abbrev pub Table : Type 0
Table = List Row

unfoldable pub find_lease : Text → Table → Option Row
find_lease name [] = none
find_lease name (r ∷ rs) = if text_eq r.name name then some r else find_lease name rs

-- SET epoch, holder, expires_at, revision = revision + 1 WHERE name = $1
unfoldable pub set_lease : Text → ℕ → Bytes → Option ℕ → Table → Table
set_lease name epoch holder expires_at [] = []
set_lease name epoch holder expires_at (r ∷ rs) =
    (if text_eq r.name name
      then record r {
        epoch = epoch;
        holder = holder;
        expires_at = expires_at;
        revision = r.revision + 1;
      }
      else r)
    ∷ set_lease name epoch holder expires_at rs

abbrev lease_added : Text → Table → Option Row → Table
lease_added name d none =
    record { name = name; epoch = 0; holder = none; expires_at = none; revision = 0 } ∷ d
lease_added name d (some r) = d

abbrev pub with_lease : Text → Table → Table
with_lease name d = lease_added name d (find_lease name d)

-- INSERT INTO leases (name, epoch, revision) VALUES ($1, 0, 0) ON CONFLICT (name) DO NOTHING
abbrev pub insert_lease : Text → Stmt Table (Unit {0})
insert_lease name clock d = ok (tt, with_lease name d)

-- What the source scans of a row.
pub record Seen : Type 0 where
  pub epoch : ℕ
  pub holder : Bytes
  pub expires_at : Option ℕ
  pub database_now : ℕ

abbrev pub seen_row : ℕ → Row → Seen
seen_row clock r = record {
  epoch = r.epoch;
  holder = r.holder;
  expires_at = r.expires_at;
  database_now = clock;
}

abbrev seen_lease : ℕ → Table → Option Row → Result (Seen × Table)
seen_lease clock d none = err no_rows
seen_lease clock d (some r) = ok (seen_row clock r, d)

-- SELECT epoch, holder, expires_at, clock_timestamp() FROM leases WHERE name = $1, with or without
-- FOR UPDATE
abbrev pub select_lease : Text → Stmt Table Seen
select_lease name clock d = seen_lease clock d (find_lease name d)

-- expires_at > clock_timestamp(), which NULL does not meet
abbrev pub is_after : Option ℕ → ℕ → Bool
is_after none clock = false
is_after (some t) clock = ltb clock t

-- holder = $3, which NULL does not meet
abbrev pub is_holder : Bytes → List ℕ → Bool
is_holder none holder = false
is_holder (some h) holder = text_eq h holder

-- The rest of an UPDATE of one row to a new expiry: RETURNING expires_at, clock_timestamp().
abbrev renewed : (ℕ → ℕ) → Text → ℕ → List ℕ → ℕ → ℕ → Table → Row → Result ((ℕ × ℕ) × Table)
renewed after name epoch holder ms clock d r =
    if ltb r.revision bigint_max
    then ok (
      (after clock + ms * 1000000, after (after clock)),
      set_lease name epoch (some holder) (some (after clock + ms * 1000000)) d,
    )
    else err (pg_error "22003")

abbrev granted_row :
    (ℕ → ℕ) → Text → ℕ → List ℕ → ℕ → ℕ → Table → Option Row → Result ((ℕ × ℕ) × Table)
granted_row after name epoch holder ms clock d none = err no_rows
granted_row after name epoch holder ms clock d (some r) =
    renewed after name epoch holder ms clock d r

-- UPDATE leases SET epoch = $2, holder = $3, expires_at = clock_timestamp() + $4 ms, revision =
-- revision + 1 WHERE name = $1 RETURNING expires_at, clock_timestamp()
abbrev pub grant_lease : (ℕ → ℕ) → Text → ℕ → List ℕ → ℕ → Stmt Table (ℕ × ℕ)
grant_lease after name epoch holder ms clock d =
    granted_row after name epoch holder ms clock d (find_lease name d)

-- WHERE name = $1 AND epoch = $2 AND holder = $3, of the row of that name
abbrev pub is_own : ℕ → List ℕ → Row → Bool
is_own epoch holder r = r.epoch == epoch && is_holder r.holder holder

abbrev renewed_row :
    (ℕ → ℕ) → Text → ℕ → List ℕ → ℕ → ℕ → Table → Option Row → Result ((ℕ × ℕ) × Table)
renewed_row after name epoch holder ms clock d none = err no_rows
renewed_row after name epoch holder ms clock d (some r) =
    if is_own epoch holder r && is_after r.expires_at clock
    then renewed after name epoch holder ms clock d r
    else err no_rows

-- UPDATE leases SET expires_at = clock_timestamp() + $4 ms, revision = revision + 1 WHERE name = $1
-- AND epoch = $2 AND holder = $3 AND expires_at > clock_timestamp() RETURNING expires_at,
-- clock_timestamp()
abbrev pub renew_lease : (ℕ → ℕ) → Text → ℕ → List ℕ → ℕ → Stmt Table (ℕ × ℕ)
renew_lease after name epoch holder ms clock d =
    renewed_row after name epoch holder ms clock d (find_lease name d)

abbrev cleared_row : Text → ℕ → List ℕ → Table → Option Row → Result (ℕ × Table)
cleared_row name epoch holder d none = ok (0, d)
cleared_row name epoch holder d (some r) =
    if is_own epoch holder r
    then if ltb r.revision bigint_max
      then ok (1, set_lease name r.epoch none none d)
      else err (pg_error "22003")
    else ok (0, d)

-- UPDATE leases SET holder = NULL, expires_at = NULL, revision = revision + 1 WHERE name = $1 AND
-- epoch = $2 AND holder = $3: the number of rows changed
abbrev pub clear_lease : Text → ℕ → List ℕ → Stmt Table ℕ
clear_lease name epoch holder clock d = cleared_row name epoch holder d (find_lease name d)
