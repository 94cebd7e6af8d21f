-- ===== src/Api/Answers/Errors.antt =====
-- Which errors the functions that fetch end with.
use pgmanager.Common.{
  ◌≡◌, ◌≢◌, ◌↔◌, ◌⊎◌, refl, sym, ap, ◌∙◌, inl, inr, Bool, true, false, Option, none, ℕ, some,
  Option-cases, List, Text, text, ◌==◌, arith,
}
use pgmanager.Schemas.{Value}
use pgmanager.Schemas.Zod.{Json, arr, obj, Elems, Props, get, Schema, IsObject, Zod}
use pgmanager.Schemas.Answers.{error_schema, data_result_schema, query_result_schema}
use pgmanager.Schemas.Meaning.{IsError, error_schema-Reads}
use pgmanager.Schemas.Results.{data_result_schema-Reads, query_result_schema-Reads, IsRows}
use pgmanager.Api.{ApiError, Response, is_ok, http, request, failure, parsed_error}
use pgmanager.Api.Failures.{request_iff, outcome}
use pgmanager.Api.Answers.{
  zod_error, thrown, parsed, parse, error_of, fetch, fetch_data, execute_query,
}

-- No rows: there is no array among the properties under that name.
abbrev pub HasNoRows : Props → Type 0
HasNoRows ps = (vs : Elems) → get ps (text "rows") ≢ some (arr vs)

-- What the error of a response says: the text `error` of a body that is an object with one, and
-- otherwise the status.
abbrev pub Says : Option Json → ℕ → Text → Type 0
Says json status m =
    ((j : Json) × (json ≡ some j) × IsObject IsError (some j) m)
    ⊎ ((m ≡ http status) × ((j : Json) (t : Text) → json ≡ some j → ¬ IsObject IsError (some j) t))

abbrev message_of : Option Text → ℕ → Text
message_of none status = http status
message_of (some e) status = e

module _ {N : Type 0} (view : Option Json → Value N) where
  same_rows :
      (ps qs : Props) (rows : List (List (Value N)))
      → some (obj ps) ≡ some (obj qs)
      → IsRows view (get qs (text "rows")) rows
      → ¬ HasNoRows ps
  same_rows ps qs rows e h no_rows =
      let (cells, (vs, i, k), l) = h in no_rows vs (ap (λ xs. get xs (text "rows")) (same e) ∙ i)
    where
      same : some (obj ps) ≡ some (obj qs) → ps ≡ qs
      same i = ground (arith, i)

module _ {A : Type 0} (s : Schema A) where
  parsed-thrown : (e : ApiError) (o : Option A) → parsed o ≢ thrown e
  parsed-thrown e none h = ground (arith, h)
  parsed-thrown e (some a) h = ground (arith, h)

  outcome_thrown_iff :
      (e : ApiError) (ok no_content : Bool) (json : Option Json) (f : ApiError)
      → (parse s (outcome ok no_content json f) ≡ thrown e) ↔ ((ok ≡ false) × (f ≡ e))
  outcome_thrown_iff e false no_content json f =
      (λ h. (refl, ground (arith, h)), λ h. ap thrown h.1)
  outcome_thrown_iff e true true json f =
      (λ h. absurd (parsed-thrown e _ h), λ h. absurd (ground (arith, h.0)))
  outcome_thrown_iff e true false none f =
      (λ h. absurd (ground (arith, h)), λ h. absurd (ground (arith, h.0)))
  outcome_thrown_iff e true false (some j) f =
      (λ h. absurd (parsed-thrown e _ h), λ h. absurd (ground (arith, h.0)))

same_error :
    (m : Text) (status : ℕ) (tables : Option (List Text)) (e : ApiError)
    → m ≡ e.message
    → status ≡ e.status
    → tables ≡ e.tables
    → record { message = m; status = status; tables = tables } ≡ e
same_error m status tables e h i j = rw (h, i, j) refl

module _ (z : Zod) where
  -- A body that the schema refuses.
  fetch_refused :
      {A : Type 0} (s : Schema A) (r : Response Json) (j : Json)
      → is_ok r ≡ true
      → (r.status == 204) ≡ false
      → r.json ≡ some j
      → ((a : A) → s (some j) ≢ some a)
      → fetch z s r ≡ zod_error
  fetch_refused s r j ok content json never =
      rw ((request_iff (error_of z) r j).1 (ok, content, json))
        (elim (Option-cases (s (some j))) [ inl e ↦ rw e refl | inr (a, e) ↦ absurd (never a e) ])

  module _ {N : Type 0} (view : Option Json → Value N) where
    -- A response with a status from 200 to 299 but 204, whose body is an object that has no array of
    -- rows, for instance `null` in their place, ends with an error of `parse` for `fetchData` and for
    -- `executeQuery`.
    pub rows-refused :
        (r : Response Json) (ps : Props)
        → is_ok r ≡ true
        → (r.status == 204) ≡ false
        → r.json ≡ some (obj ps)
        → HasNoRows ps
        → (fetch_data z view r ≡ zod_error) × (execute_query z view r ≡ zod_error)
    unfolding fetch_data execute_query
    rows-refused r ps ok content json no_rows = (
      fetch_refused (data_result_schema z view) r (obj ps) ok content json (λ d e.
          let (qs, i, h) = (data_result_schema-Reads z view (some (obj ps)) d).0 e in
          same_rows view ps qs d.rows i h.1 no_rows),
      fetch_refused (query_result_schema z view) r (obj ps) ok content json (λ q e.
          let (qs, i, h) = (query_result_schema-Reads z view (some (obj ps)) q).0 e in
          same_rows view ps qs q.rows i h.1 no_rows),
    )

  message_of-Says :
      (json : Option Json) (status : ℕ) (m : Text)
      → (message_of (parsed_error (error_of z) json) status ≡ m) ↔ Says json status m
  unfolding parsed_error
  message_of-Says none status m = (
    λ h. inr (sym h, λ j t i. absurd (ground (arith, i))),
    λ h. elim h [ inl (j, i, k) ↦ absurd (ground (arith, i)) | inr (e, k) ↦ sym e ],
  )
  message_of-Says (some i) status m = elim (Option-cases (error_schema z (some i))) [
    | inl e ↦ (
      λ h. inr (sym h ∙ says e, λ j t k l. absurd (differ (sym e ∙ error_of_body k l))),
      λ h. elim h [
        | inl (j, k, l) ↦ absurd (differ (sym e ∙ error_of_body k l))
        | inr (k, none_said) ↦ says e ∙ sym k
      ],
    )
    | inr (t, e) ↦ (
      λ h. inl (i, refl, (error_schema-Reads z (some i) m).0 (e ∙ ap some (sym (says e) ∙ h))),
      λ h. elim h [
        | inl (j, k, l) ↦ says (error_of_body k l)
        | inr (k, none_said) ↦ absurd (none_said i t refl ((error_schema-Reads z (some i) t).0 e))
      ],
    )
  ]
    where
      says :
          {o : Option Text}
          → error_schema z (some i) ≡ o
          → message_of (error_schema z (some i)) status ≡ message_of o status
      says e = ap (λ o. message_of o status) e

      differ : {t : Text} → none ≡ some t → ⊥
      differ h = ground (arith, h)

      error_of_body :
          {j : Json} {t : Text}
          → some i ≡ some j
          → IsObject IsError (some j) t
          → error_schema z (some i) ≡ some t
      error_of_body {j} {t} k l = ap (error_schema z) k ∙ (error_schema-Reads z (some j) t).1 l

  failure_eq :
      (r : Response Json)
      → failure (error_of z) r ≡ record {
        message = message_of (parsed_error (error_of z) r.json) r.status;
        status = r.status;
        tables = none;
      }
  unfolding failure
  failure_eq r = elim (Option-cases (parsed_error (error_of z) r.json)) [
    | inl e ↦ rw e refl
    | inr (t, e) ↦ rw e refl
  ]

  -- A call ends with an `ApiError` exactly when the status of the response is not from 200 to 299, and
  -- the error has that status, no tables, and the text `error` of the body where the body is an
  -- object with one, and otherwise the text that names the status.
  pub fetch-thrown :
      {A : Type 0} (s : Schema A) (r : Response Json) (e : ApiError)
      → (fetch z s r ≡ thrown e) ↔ (
          (is_ok r ≡ false)
          × (e.status ≡ r.status)
          × (e.tables ≡ none)
          × Says r.json r.status e.message)
  unfolding request
  fetch-thrown s r e = (
    λ h.
        let (ok, f) = (outcome_thrown_iff s e (is_ok r) _ r.json _).0 h in
        let g : _ ≡ e = sym (failure_eq r) ∙ f in
        (
          ok,
          sym (ap (λ x. x.status) g),
          sym (ap (λ x. x.tables) g),
          (message_of-Says r.json r.status e.message).0 (ap (λ x. x.message) g),
        ),
    λ h. (outcome_thrown_iff s e (is_ok r) _ r.json _).1 (
      h.0,
      failure_eq r
          ∙ same_error _ _ _ e ((message_of-Says r.json r.status e.message).1 h.3) (sym h.1)
              (sym h.2),
    ),
  )
