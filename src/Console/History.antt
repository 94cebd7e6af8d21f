-- ===== src/Console/History.antt =====
-- The history of the console: what it holds, and that it is bounded.
use pgmanager.Common.{
  run_keep, ℕ, ◌≡◌, ◌≤◌, refl, Bool, true, false, ◌||◌, ◌&&◌, Option, none, some, List, [], ◌∷◌,
  Text, text, text_eq, is_empty, trim, take, length, length-take-le, if◌then◌else◌, All, Bool-cases,
  inl, inr, arith,
}
use pgmanager.Schemas.{QueryResult}
use pgmanager.Console.{
  Console, Key, Event, typed, execute, format_click, toggle_history, clear_history, key_down,
  answered, failed, history_click, formatted, handle_execute, handle_format, handle_key_down,
  on_success, entry_of, step, steps,
}

module _ {N : Type 0} (format : Text → Option Text) where
  -- What holds in every state: at most 50 entries, and no empty query has been sent.
  abbrev pub IsValid : Console N → Type 0
  IsValid c = (length c.history ≤ 50) × All (λ q. is_empty q ≡ false) c.sent

  handle_execute-IsValid : (c : Console N) → IsValid c → IsValid (handle_execute N c)
  unfolding handle_execute
  handle_execute-IsValid c h = elim (Bool-cases (is_empty (trim c.sql))) [
    | inl e ↦ rw e h
    | inr e ↦ rw e (h.0, (e, h.1))
  ]

  formatted-IsValid : (f : Option Text) (c : Console N) → IsValid c → IsValid (formatted N f c)
  formatted-IsValid none c h = h
  formatted-IsValid (some sql) c h = h

  handle_format-IsValid : (c : Console N) → IsValid c → IsValid (handle_format N format c)
  unfolding handle_format
  handle_format-IsValid c h = formatted-IsValid (format c.sql) c h

  IsValid-if : (b : Bool) (c d : Console N) → IsValid c → IsValid d → IsValid (if b then c else d)
  IsValid-if true c d h k = h
  IsValid-if false c d h k = k

  handle_key_down-IsValid :
      (k : Key N) (c : Console N) → IsValid c → IsValid (handle_key_down N format k c)
  unfolding handle_key_down
  handle_key_down-IsValid k c h =
      let command = k.meta || k.ctrl in
      let b = command && text_eq k.key (text "Enter") in
      let h' = IsValid-if b (handle_execute N c) c (handle_execute-IsValid c h) h in
      let c' = if b then handle_execute N c else c in
      IsValid-if (command && k.shift && text_eq k.key (text "f")) (handle_format N format c') c'
        (handle_format-IsValid c' h') h'

  step-IsValid : (e : Event N) (c : Console N) → IsValid c → IsValid (step N format e c)
  unfolding step on_success
  step-IsValid (typed s) c h = h
  step-IsValid execute c h = handle_execute-IsValid c h
  step-IsValid format_click c h =
      IsValid-if (is_empty (trim c.sql)) c (handle_format N format c) h (handle_format-IsValid c h)
  step-IsValid toggle_history c h = h
  step-IsValid clear_history c h = (omega arith, h.1)
  step-IsValid (key_down k) c h = handle_key_down-IsValid k c h
  step-IsValid (answered answer now) c h = (omega (arith, length-take-le 49 c.history), h.1)
  step-IsValid (failed e) c h = h
  step-IsValid (history_click e) c h = h

  -- From a state where it holds, whatever happens in the console leaves the history with at most 50
  -- entries and sends no empty query.
  pub steps-IsValid :
      (es : List (Event N)) (c : Console N) → IsValid c → IsValid (steps N format es c)
  unfolding steps
  steps-IsValid = run_keep (step N format) IsValid step-IsValid

  -- When the text in the editor is changed between a query and its answer, the query that was sent is
  -- the old text without the blanks around it, and the newest entry of the history shows the answer
  -- under the new text.
  pub steps-typed_meanwhile :
      (c : Console N) (s : Text) (answer : QueryResult N) (now : ℕ)
      → is_empty (trim c.sql) ≡ false
      → (((steps N format (execute ∷ typed s ∷ answered answer now ∷ []) c).sent
            ≡ trim c.sql ∷ c.sent)
          × ((steps N format (execute ∷ typed s ∷ answered answer now ∷ []) c).history
              ≡ entry_of N s answer now ∷ take 49 c.history))
  unfolding steps step handle_execute on_success
  steps-typed_meanwhile c s answer now h = rw h (refl, refl)
