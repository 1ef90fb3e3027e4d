-- ===== src/OrderedIndex/Query.antt =====
-- The page statements of internal/orderedquery/orderedquery.go, as reads of the table.
use pgstore.Prelude.{
  ℕ, suc, Bool, true, ◌&&◌, ◌||◌, not, Option, none, some, List, [], ◌∷◌, keep, take, ltb, ◌==◌,
  if◌then◌else◌,
}
use pgstore.Prelude.Int.{ℤ, pos, int_eq, ltb_ℤ}
use pgstore.Text.{Text, text_eq, text_le}
use pgstore.Errors.{ok}
use pgstore.Driver.{Stmt}
use pgstore.OrderedIndex.Sql.{Row, Tables}

-- RankedPosition and DuePosition: the tuple that a page follows.
pub record Position : Type 0 where
  pub number : ℤ
  pub stable_key : Text
  pub ordering_scope : Text

-- (a.stable_key, a.ordering_scope) <= (b.stable_key, b.ordering_scope)
abbrev pub name_le : Position → Position → Bool
name_le a b =
    not (text_le b.stable_key a.stable_key)
    || text_eq a.stable_key b.stable_key && text_le a.ordering_scope b.ordering_scope

-- PostgreSQL's comparison of row values, `<=`.
unfoldable pub position_le : Position → Position → Bool
position_le a b = ltb_ℤ a.number b.number || int_eq a.number b.number && name_le a b

-- `>=`, for ORDER BY ... DESC.
abbrev pub position_ge : Position → Position → Bool
position_ge a b = position_le b a

abbrev pub ranked_key : Row → Position
ranked_key r = record {
  number = r.rank_value;
  stable_key = r.id.stable_key;
  ordering_scope = r.id.ordering_scope;
}

abbrev pub due_key : Row → Position
due_key r = record {
  number = r.due_at;
  stable_key = r.id.stable_key;
  ordering_scope = r.id.ordering_scope;
}

abbrev pub order_key : Row → Position
order_key r = record {
  number = pos r.order_id;
  stable_key = r.id.stable_key;
  ordering_scope = r.id.ordering_scope;
}

module _ {A K : Type 0} (key : A → K) (le : K → K → Bool) where
  unfoldable pub insert_by : A → List A → List A
  insert_by x [] = x ∷ []
  insert_by x (y ∷ ys) =
      let rest = insert_by x ys in if le (key x) (key y) then x ∷ y ∷ ys else y ∷ rest

  -- ORDER BY key
  unfoldable pub order_by : List A → List A
  order_by [] = []
  order_by (x ∷ xs) = insert_by x (order_by xs)

  -- AND key > position, where there is one
  unfoldable pub is_after : Option K → A → Bool
  is_after none x = true
  is_after (some k) x = not (le (key x) k)

abbrev pub is_ordered : Text → Text → ℕ → Row → Bool
is_ordered namespace scope after_order r =
    text_eq r.id.namespace namespace
    && text_eq r.id.ordering_scope scope
    && ltb after_order r.order_id

abbrev pub is_ranked : Text → Text → Row → Bool
is_ranked namespace scope r =
    text_eq r.id.namespace namespace && text_eq r.ranking_scope scope && r.ranked && not r.deleted

abbrev pub is_due : Text → ℤ → Row → Bool
is_due namespace bound r =
    text_eq r.id.namespace namespace
    && r.due_state == 1
    && not r.deleted
    && not (ltb_ℤ bound r.due_at)

-- Ordered: WHERE namespace = $1 AND ordering_scope = $2 AND order_id > $3 ORDER BY order_id ASC,
-- stable_key ASC LIMIT $4
unfoldable pub ordered : Text → Text → ℕ → ℕ → Stmt Tables (List Row)
ordered namespace scope after_order limit clock d = ok (
  take limit
      (order_by order_key position_le (keep (is_ordered namespace scope after_order) d.records)),
  d,
)

-- Ranked: WHERE namespace = $1 AND ranking_scope = $2 AND ranked AND NOT deleted [AND (rank_value,
-- stable_key, ordering_scope) < ($3, $4, $5)] ORDER BY rank_value DESC, stable_key DESC,
-- ordering_scope DESC LIMIT limit+1
unfoldable pub ranked : Text → Text → Option Position → ℕ → Stmt Tables (List Row)
ranked namespace scope position limit clock d = ok (
  take (suc limit) (
      order_by ranked_key position_ge (
        keep (is_after ranked_key position_ge position)
          (keep (is_ranked namespace scope) d.records))),
  d,
)

-- Due: WHERE namespace = $1 AND due_state = 1 AND NOT deleted AND due_at <= $2 [AND (due_at,
-- stable_key, ordering_scope) > ($3, $4, $5)] ORDER BY due_at ASC, stable_key ASC, ordering_scope ASC
-- LIMIT limit+1
unfoldable pub due : Text → ℤ → Option Position → ℕ → Stmt Tables (List Row)
due namespace bound position limit clock d = ok (
  take (suc limit) (
      order_by due_key position_le
        (keep (is_after due_key position_le position) (keep (is_due namespace bound) d.records))),
  d,
)
