-- ===== src/Storage.antt =====
-- What pgstore calls of github.com/looprig/storage: the checks of its arguments. Each returns nil
-- or its error.
use pgstore.Prelude.{ℕ, Option}
use pgstore.Text.{Text, Bytes}
use pgstore.Records.{OrderedId, Due, OrderedRecord, CursorKind}
use pgstore.Errors.{Error}

pub record Storage : Type 0 where
  pub validate_name : Text → Option Error

-- The checks of the ordered index. A limit is a number here: a negative
-- one is left to ValidateOrderedLimit.
pub record OrderedStorage : Type 0 where
  pub validate_name : Text → Option Error
  pub validate_stable_key : Text → Option Error
  pub validate_ordered_id : OrderedId → Option Error
  pub validate_ordered_value : Bytes → Option Error
  pub validate_due : Due → Option Error
  pub validate_ordered_limit : ℕ → Option Error
  pub validate_ordered_record : OrderedRecord → Option Error
  -- The text of an OrderedCursorKind.
  pub kind_name : CursorKind → Text
