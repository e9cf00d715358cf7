-- ===== src/Cases/Lookup.antt =====
-- What the queries by id find after an update.
use mathlib.Core.Option
use nestfleet.Prelude.{◌≡◌, refl, ◌≢◌, String, List}
use nestfleet.Prelude.Table.{find_by-update_where_self, find_by-update_where_ne}
use nestfleet.Cases.Rows.{
  CaseRow, CaseUpdate, CaseStatus, apply_update, case_key, find_case_by_id, update_case_rows,
}

module _ (k : String) (v : CaseUpdate) (to : CaseStatus) (t : List CaseRow) where
  -- The row under the id is the updated one.
  pub find-update_self :
      find_case_by_id k (update_case_rows k (apply_update v to) t)
      ≡ Option.map (apply_update v to) (find_case_by_id k t)
  unfolding find_case_by_id update_case_rows apply_update
  find-update_self = find_by-update_where_self case_key k (apply_update v to) t (λ r. refl)

  -- The row under another id is as it was.
  pub find-update_ne :
      (j : String)
      → k ≢ j
      → find_case_by_id j (update_case_rows k (apply_update v to) t) ≡ find_case_by_id j t
  unfolding find_case_by_id update_case_rows apply_update
  find-update_ne j ne = find_by-update_where_ne case_key k j (apply_update v to) t (λ r. refl) ne
