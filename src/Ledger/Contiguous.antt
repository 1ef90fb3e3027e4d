-- ===== src/Ledger/Contiguous.antt =====
-- The log invariant of internal/ledger/ledger.go: the sequences of a name are 1 to its tip.
use pgstore.Prelude.{
  ℕ, ◌≤◌, ◌≡◌, Bool, true, false, ◌&&◌, Option, none, some, List, [], ◌∷◌, arith, leb, ◌==◌, inl,
  inr, if◌then◌else◌,
}
use pgstore.Text.{Text, Bytes, content, text_eq, text_eq_iff}
use pgstore.Driver.{Driver, World}
use pgstore.Postgres.{RetryableAborts}
use pgstore.Storage.{Storage}
use pgstore.Guard.Defs.{Context}
use pgstore.Ledger.Sql.{Tables, Scope, bigint_max, find_tip, find_payload, set_tip, with_scope}
use pgstore.Ledger.Moves.{Moves, here, other, append, IsDue, tip_at, payload_at, appended}
use pgstore.Ledger.Append.{append_once_at_most}
use pgstore.Ledger
use pgstore.Ledger.{Store, next_seq}

abbrev pub is_some : {A : Type 0} → Option A → Bool
is_some none = false
is_some (some a) = true

-- A name has a record at exactly the sequences 1 to its tip, and the tip fits its column.
pub record IsLog (d : Tables) : Type 0 where
  pub contiguous :
      (name : Text) (seq : ℕ)
      → is_some (payload_at d name seq) ≡ (leb 1 seq && leb seq (tip_at d name))
  pub fits : (name : Text) → tip_at d name ≤ bigint_max

find-set_tip :
    (name j : Text) (tip : ℕ) (ss : List Scope)
    → find_tip j (set_tip name tip ss)
      ≡ (if text_eq name j && is_some (find_tip j ss) then some tip else find_tip j ss)
unfolding find_tip set_tip
find-set_tip name j tip [] = ground arith
find-set_tip name j tip (x ∷ ss) = ground (
  arith,
  find-set_tip name j tip ss,
  text_eq_iff x.name name,
  text_eq_iff x.name j,
  text_eq_iff name j,
)

pub tip_at-appended :
    (name j : Text) (expected : ℕ) (payload : Bytes) (d : Tables)
    → tip_at (appended name expected payload d) j
      ≡ (if text_eq name j then next_seq expected else tip_at d j)
unfolding find_tip
tip_at-appended name j expected payload d = ground (
  arith,
  find-set_tip name j (next_seq expected) (with_scope name d).scopes,
  text_eq_iff name j,
  text_eq_iff name name,
)

pub payload_at-appended :
    (name j : Text) (expected seq : ℕ) (payload : Bytes) (d : Tables)
    → payload_at (appended name expected payload d) j seq ≡ (
        if text_eq name j && next_seq expected == seq
        then some (content payload)
        else payload_at d j seq)
unfolding find_payload
payload_at-appended name j expected seq payload d = ground arith

appended-IsLog :
    (name : Text) (expected : ℕ) (payload : Bytes) (d : Tables)
    → IsDue name expected d
    → IsLog d
    → IsLog (appended name expected payload d)
appended-IsLog name expected payload d due log = record {
  contiguous = λ j seq. ground (
    arith,
    tip_at-appended name j expected payload d,
    payload_at-appended name j expected seq payload d,
    text_eq_iff name j,
    log.contiguous j seq,
    log.fits name,
    due.tip,
    due.fits,
  );
  fits = λ j. ground (arith, tip_at-appended name j expected payload d, log.fits j, due.fits);
}

Moves-IsLog :
    {driver : Driver Tables} {name : Text} {expected : ℕ} {payload : Bytes} {start d : Tables}
    {k : ℕ}
    → ((n : ℕ) (x : Tables) → IsLog x → IsLog (driver.others n x))
    → IsLog start
    → Moves driver name expected payload start k d
    → IsLog d
Moves-IsLog others log here = log
Moves-IsLog others log (other n m) = others n _ (Moves-IsLog others log m)
Moves-IsLog {payload = bytes} others log (append m due) =
    appended-IsLog _ _ bytes _ due (Moves-IsLog others log m)

-- Append keeps every log without a gap, through every failure, retry and lost answer, if the other
-- clients do and the server aborts what it calls retryable.
pub append-IsLog :
    (driver : Driver Tables) (storage : Storage) (s : Store) (ctx : Option Context) (name : Text)
    (expected : ℕ) (payload : Bytes) (w : World Tables)
    → RetryableAborts driver
    → ((n : ℕ) (x : Tables) → IsLog x → IsLog (driver.others n x))
    → IsLog w.db
    → IsLog (Ledger.append driver storage s ctx name expected payload w).1.db
append-IsLog driver storage s ctx name expected payload w aborts others log =
    elim (append_once_at_most driver storage s ctx name expected payload w aborts) [
      | inl m ↦ Moves-IsLog others log m
      | inr m ↦ Moves-IsLog others log m
    ]
