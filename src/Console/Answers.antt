-- ===== src/Console/Answers.antt =====
-- backend/ui/src/components/SqlConsole.tsx with api/data.ts: what the console makes of a response of
-- the server to a query.
use pgmanager.Common.{
  ◌≡◌, ◌≢◌, ◌⊎◌, inl, inr, refl, ℕ, Option, some, List, [], ◌∷◌, Text, take, arith,
}
use pgmanager.Schemas.{Value, QueryResult}
use pgmanager.Schemas.Zod.{Json, Zod, IsObject}
use pgmanager.Schemas.Results.{IsQueryResult}
use pgmanager.Ui.{Effect, toast_error}
use pgmanager.Api.{Response}
use pgmanager.Api.Answers.{Fetched, fetched, zod_error, bad_json, thrown, execute_query}
use pgmanager.Api.Answers.Iff.{Holds, execute_query_iff}
use pgmanager.Console.{Console, Event, answered, failed, on_success, success_effects, step}

-- `zod_message` and `json_message` are what the errors of `parse` and of `response.json()` say.
module _ {N : Type 0} (zod_message json_message : Text) where
  -- The mutation calls `onSuccess` or `onError`.
  unfoldable pub outcome : Fetched (QueryResult N) → ℕ → Event N
  outcome (fetched q) now = answered q now
  outcome zod_error now = failed zod_message
  outcome bad_json now = failed json_message
  outcome (thrown e) now = failed e.message

  -- The toasts of the two handlers.
  unfoldable pub effects : Event N → List Effect
  unfolding success_effects
  effects (answered q now) = success_effects N q
  effects (failed e) = toast_error e ∷ []
  effects e = []

  module _ (z : Zod) (view : Option Json → Value N) (format : Text → Option Text) where
    -- The mutation is settled with a response, at a time.
    unfoldable pub settle : Response Json → ℕ → Console N → Console N
    unfolding outcome step
    settle r now c = step N format (outcome (execute_query z view r) now) c

    -- What the console is after one of the outcomes of `executeQuery`.
    by_outcome :
        (f : Fetched (QueryResult N)) (now : ℕ) (c : Console N)
        → ((q : QueryResult N) × (f ≡ fetched q)
            × (step N format (outcome f now) c ≡ on_success N q now c))
          ⊎ (((q : QueryResult N) → f ≢ fetched q) × (step N format (outcome f now) c ≡ c))
    unfolding outcome step
    by_outcome (fetched q) now c = inl (q, refl, refl)
    by_outcome zod_error now c = inr (λ q h. ground (arith, h), refl)
    by_outcome bad_json now c = inr (λ q h. ground (arith, h), refl)
    by_outcome (thrown e) now c = inr (λ q h. ground (arith, h), refl)

    -- Either a response holds the result of a query, and this is then shown, and a new entry with the
    -- text of the editor, the time, and the duration, the number of rows and the error of the result
    -- stands before at most 49 entries that the history had; or it holds none, and leaves the console
    -- as it is.
    pub settle-recorded :
        (r : Response Json) (now : ℕ) (c : Console N)
        → ((q : QueryResult N) × Holds (IsObject (IsQueryResult view)) r q
            × (settle r now c ≡ record c {
              result = some q;
              history =
                  record {
                    sql = c.sql;
                    duration = q.duration;
                    row_count = q.row_count;
                    timestamp = now;
                    error = q.error;
                  }
                  ∷ take 49 c.history;
            }))
          ⊎ (((q : QueryResult N) → ¬ Holds (IsObject (IsQueryResult view)) r q)
              × (settle r now c ≡ c))
    unfolding settle on_success
    settle-recorded r now c = elim (by_outcome (execute_query z view r) now c) [
      | inl (q, e, h) ↦ inl (q, (execute_query_iff z view r q).0 e, h)
      | inr (never, h) ↦ inr (λ q k. never q ((execute_query_iff z view r q).1 k), h)
    ]
