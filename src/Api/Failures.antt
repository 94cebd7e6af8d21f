-- ===== src/Api/Failures.antt =====
-- What a response becomes.
use pgmanager.Common.{
  ◌≡◌, ◌↔◌, refl, Bool, true, false, Option, none, some, Text, ◌==◌, if◌then◌else◌, arith,
}
use pgmanager.Api.{
  ApiError, Response, Answer, value, undefined, thrown, is_ok, failure, request, body_of,
}

module _ {J : Type 0} where
  -- The outcome by its three tests.
  abbrev pub outcome : Bool → Bool → Option J → ApiError → Answer J
  outcome ok no_content json e =
      if ok then (if no_content then undefined else body_of json) else thrown e

  outcome_iff :
      (ok no_content : Bool) (json : Option J) (e : ApiError) (j : J)
      → (outcome ok no_content json e ≡ value j)
        ↔ ((ok ≡ true) × (no_content ≡ false) × (json ≡ some j))
  outcome_iff false no_content json e j =
      (λ h. absurd (ground (arith, h)), λ h. absurd (ground (arith, h)))
  outcome_iff true true json e j =
      (λ h. absurd (ground (arith, h)), λ h. absurd (ground (arith, h)))
  outcome_iff true false none e j =
      (λ h. absurd (ground (arith, h)), λ h. absurd (ground (arith, h)))
  outcome_iff true false (some i) e j =
      (λ h. (refl, refl, ground (arith, h)), λ h. ground (arith, h))

module _ {J : Type 0} (error_of : J → Option Text) where
  -- `request` gives data exactly when the status is from 200 to 299 and not 204 and the body is JSON,
  -- and the data are that body.
  pub request_iff :
      (r : Response J) (j : J)
      → (request error_of r ≡ value j)
        ↔ ((is_ok r ≡ true) × ((r.status == 204) ≡ false) × (r.json ≡ some j))
  unfolding request
  request_iff r j = outcome_iff (is_ok r) (r.status == 204) r.json (failure error_of r) j
