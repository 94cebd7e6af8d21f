-- ===== src/Rows/Grid/Loaded.antt =====
-- backend/ui/src/components/tabs/DataTab.tsx with api/data.ts: what the tab shows of a response of the
-- server, once it is no longer loading. The query has no data if `fetchData` throws.
use pgmanager.Common.{
  ◌≡◌, ◌≢◌, ◌⊎◌, refl, Bool, true, false, Option, none, some, inl, inr, arith, ◌==◌,
}
use pgmanager.Schemas.{Value, DataResult}
use pgmanager.Schemas.Zod.{Json, obj, Props, Zod, IsObject}
use pgmanager.Schemas.Results.{IsDataResult}
use pgmanager.Api.{Response, is_ok}
use pgmanager.Api.Answers.{Fetched, fetched, zod_error, bad_json, thrown, fetch_data}
use pgmanager.Api.Answers.Iff.{Holds, fetch_data_iff}
use pgmanager.Api.Answers.Errors.{HasNoRows, rows-refused}
use pgmanager.Rows.{Numbers}
use pgmanager.Rows.Detail.{Detail}
use pgmanager.Rows.Grid.{View, no_data, view}

unfoldable pub data_of : {A : Type 0} → Fetched A → Option A
data_of (fetched d) = some d
data_of f = none

module _ (R : Numbers) (z : Zod) (value : Option Json → Value R.N) where
  unfoldable pub shown : Bool → Detail R.N → Response Json → View R.N
  unfolding data_of view
  shown can_write s r = view R false can_write s (data_of (fetch_data z value r))

  by_outcome :
      (can_write : Bool) (s : Detail R.N) (f : Fetched (DataResult R.N))
      → ((d : DataResult R.N) × (f ≡ fetched d)
          × (view R false can_write s (data_of f) ≡ view R false can_write s (some d)))
        ⊎ (((d : DataResult R.N) → f ≢ fetched d)
            × (view R false can_write s (data_of f) ≡ no_data))
  unfolding data_of view
  by_outcome can_write s (fetched d) = inl (d, refl, refl)
  by_outcome can_write s zod_error = inr (λ d h. ground (arith, h), refl)
  by_outcome can_write s bad_json = inr (λ d h. ground (arith, h), refl)
  by_outcome can_write s (thrown e) = inr (λ d h. ground (arith, h), refl)

  -- Either a response holds a page of rows, and the tab shows this page, or it holds none, and the tab
  -- shows that there are no data.
  pub shown-page :
      (can_write : Bool) (s : Detail R.N) (r : Response Json)
      → ((d : DataResult R.N) × Holds (IsObject (IsDataResult value)) r d
          × (shown can_write s r ≡ view R false can_write s (some d)))
        ⊎ (((d : DataResult R.N) → ¬ Holds (IsObject (IsDataResult value)) r d)
            × (shown can_write s r ≡ no_data))
  unfolding shown
  shown-page can_write s r = elim (by_outcome can_write s (fetch_data z value r)) [
    | inl (d, e, h) ↦ inl (d, (fetch_data_iff z value r d).0 e, h)
    | inr (never, h) ↦ inr (λ d k. never d ((fetch_data_iff z value r d).1 k), h)
  ]

  -- For a page with columns and with null in place of its rows the tab shows neither.
  pub shown-no_rows :
      (can_write : Bool) (s : Detail R.N) (r : Response Json) (ps : Props)
      → is_ok r ≡ true
      → (r.status == 204) ≡ false
      → r.json ≡ some (obj ps)
      → HasNoRows ps
      → shown can_write s r ≡ no_data
  unfolding shown data_of view
  shown-no_rows can_write s r ps ok content json no_rows =
      rw (rows-refused z value r ps ok content json no_rows).0 refl
