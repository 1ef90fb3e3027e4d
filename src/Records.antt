-- ===== src/Records.antt =====
-- The records of looprig/storage that internal/orderedindex/orderedindex.go builds and reads, by the
-- fields that it uses. A StableKey is its bytes.
use pgstore.Prelude.{ℕ, Bool, true, false, ◌&&◌, ◌≡◌, ◌↔◌, arith}
use pgstore.Prelude.Int.{ℤ, pos}
use pgstore.Text.{Text, Bytes, text_eq, text_eq_iff}

pub record OrderedId : Type 0 where
  pub namespace : Text
  pub ordering_scope : Text
  pub stable_key : Text

pub record Rank : Type 0 where
  pub ranked : Bool
  pub value : ℤ

-- The state is a byte: 0 is NotDue.
pub record Due : Type 0 where
  pub state : ℕ
  pub unix_millis : ℤ

pub record OrderedRecord : Type 0 where
  pub id : OrderedId
  pub ranking_scope : Text
  pub revision : ℕ
  pub order : ℕ
  pub value : Bytes
  pub rank : Rank
  pub due : Due
  pub deleted : Bool

-- storage.Rank{} and storage.Due{State: storage.NotDue}
abbrev pub unranked : Rank
unranked = record { ranked = false; value = pos 0 }

abbrev pub not_due : Due
not_due = record { state = 0; unix_millis = pos 0 }

abbrev pub id_eq : OrderedId → OrderedId → Bool
id_eq a b =
    text_eq a.namespace b.namespace
    && text_eq a.ordering_scope b.ordering_scope
    && text_eq a.stable_key b.stable_key

pub id_eq_iff : (a b : OrderedId) → (id_eq a b ≡ true) ↔ (a ≡ b)
id_eq_iff a b = ground (
  arith,
  text_eq_iff a.namespace b.namespace,
  text_eq_iff a.ordering_scope b.ordering_scope,
  text_eq_iff a.stable_key b.stable_key,
)

-- OrderedOperation
pub data Operation : Type 0 where
  ordered_create ordered_update ordered_delete : Operation

-- OrderedCursorKind
pub data CursorKind : Type 0 where
  ranked_kind due_kind : CursorKind

-- OrderedCursorRule
pub data CursorRule : Type 0 where
  malformed unknown_version wrong_kind query_mismatch : CursorRule
