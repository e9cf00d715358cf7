-- ===== src/Changes/Lookup.antt =====
-- What the queries by id find after an update.
use mathlib.Core.Option
use nestfleet.Prelude.{◌≡◌, refl, ◌≢◌, String, List}
use nestfleet.Prelude.Table.{find_by-update_where_self, find_by-update_where_ne}
use nestfleet.Changes.Rows.{
  ChangeRequestRow, ChangeRequestUpdate, ChangeRequestStatus, apply_update, change_key,
  find_change_request_by_id, update_change_rows,
}

module _ (k : String) (v : ChangeRequestUpdate) (to : ChangeRequestStatus)
    (t : List ChangeRequestRow) where
  -- The row under the id is the updated one.
  pub find-update_self :
      find_change_request_by_id k (update_change_rows k (apply_update v to) t)
      ≡ Option.map (apply_update v to) (find_change_request_by_id k t)
  unfolding find_change_request_by_id update_change_rows apply_update
  find-update_self = find_by-update_where_self change_key k (apply_update v to) t (λ r. refl)

  -- The row under another id is as it was.
  pub find-update_ne :
      (j : String)
      → k ≢ j
      → find_change_request_by_id j (update_change_rows k (apply_update v to) t)
        ≡ find_change_request_by_id j t
  unfolding find_change_request_by_id update_change_rows apply_update
  find-update_ne j ne = find_by-update_where_ne change_key k j (apply_update v to) t (λ r. refl) ne
