-- ===== src/OrderedIndex/Reading.antt =====
-- getFrom of internal/orderedindex/orderedindex.go on the pool: the record that it returns is the one
-- that the tables show.
use pgstore.Prelude.{◌≡◌, ap, some}
use pgstore.Records.{OrderedId}
use pgstore.Errors.{ok}
use pgstore.Driver.{Driver, World, arrive}
use pgstore.Driver.Triples.{Triple, Triple-bind, Triple-returned}
use pgstore.Driver.Rules.{Triple-pool}
use pgstore.Storage.{OrderedStorage}
use pgstore.OrderedIndex.Sql.{Tables, find_record, select_record}
use pgstore.OrderedIndex.Scan.{scan_record, scan_record-decoded}
use pgstore.OrderedIndex.View.{view, tables_of-selected, selected-some}
use pgstore.OrderedIndex.{Store, get_record}

module _ (driver : Driver Tables) (storage : OrderedStorage) (s : Store) (id : OrderedId) where
  -- A reading on the pool, after `P` which the others keep.
  pub get_record-Seen :
      {P : World Tables → Type 0}
      → ((w : World Tables) → P w → P (arrive driver w))
      → Triple P
          (get_record driver storage s id)
          (λ r w. P w × (view w.db id ≡ some (ok r)))
          (λ _. P)
  unfolding get_record
  get_record-Seen {P} keep =
      Triple-bind (λ row w. P w × (find_record id w.db.records ≡ some row)) _ _
        (Triple-pool driver (select_record id)
          (λ w row d p h.
            rw
              (tables_of-selected (arrive driver w).db
                (find_record id (arrive driver w).db.records))
              (keep w p, selected-some _ _ row d h))
          (λ e w p.
            rw
              (tables_of-selected (arrive driver w).db
                (find_record id (arrive driver w).db.records))
              (keep w p))
          (λ e w p. keep w p))
        λ row.
          Triple-returned (scan_record storage row)
            (λ r w h p. (p.0, rw p.1 (ap some (scan_record-decoded storage row r h))))
            (λ e w h p. p.0)
