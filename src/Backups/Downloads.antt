-- ===== src/Backups/Downloads.antt =====
-- Which databases are saved, and when the button is enabled again.
use pgmanager.Common.{
  ◌≡◌, refl, sym, ◌∙◌, Bool, false, not, ◌&&◌, is_nil, ltb, length, any, is_some, Option, none,
  some, List, [], ◌∷◌, ◌++◌, Text, arith,
}
use mathlib.Core.List.{append-nil, append_assoc}
use pgmanager.Backups.{
  Download, Panel, toggle, select_all, click_backup, file, next, settled, on_answer, Event, toggles,
  selects_all, answers, step, steps,
}

module _ {B : Type 0} where
  -- The answers among the events.
  abbrev pub answers_of : List (Event B) → List (Option B × Text)
  answers_of [] = []
  answers_of (answers o t ∷ es) = (o, t) ∷ answers_of es
  answers_of (e ∷ es) = answers_of es

  -- The contents that arrive before the first error.
  abbrev pub before_error : List (Option B × Text) → List (B × Text)
  before_error [] = []
  before_error ((none, t) ∷ later) = []
  before_error ((some b, t) ∷ later) = (b, t) ∷ before_error later

  abbrev pub has_error : List (Option B × Text) → Bool
  has_error later = any (λ a. not (is_some a.0)) later

  -- A file for each name with the contents at its place, as far as both go.
  abbrev pub files : List Text → List (B × Text) → List (Download B)
  files [] cs = []
  files (name ∷ names) [] = []
  files (name ∷ names) (c ∷ cs) = file name c.0 c.1 ∷ files names cs

  -- The loop with these names left.
  abbrev running : List Text → List Text → List (Download B) → Panel B
  running names selected ds = record {
    selected = selected;
    waiting = names;
    downloading = not (is_nil names);
    downloads = ds;
  }

  abbrev Ends : List Text → List (Download B) → List (Event B) → Panel B → Type 0
  Ends names ds es s =
      (s.downloads ≡ ds ++ files names (before_error (answers_of es)))
      × (s.downloading
          ≡ (ltb (length (answers_of es)) (length names) && not (has_error (answers_of es))))

  running-Ends :
      (es : List (Event B)) (names selected : List Text) (ds : List (Download B))
      → Ends names ds es (steps es (running names selected ds))
  unfolding steps step toggle select_all on_answer settled next
  running-Ends [] [] selected ds = (sym (append-nil ds), refl)
  running-Ends [] (name ∷ names) selected ds = (sym (append-nil ds), ground arith)
  running-Ends (toggles x ∷ es) names selected ds = running-Ends es names _ ds
  running-Ends (selects_all none ∷ es) names selected ds = running-Ends es names selected ds
  running-Ends (selects_all (some xs) ∷ es) names selected ds = running-Ends es names _ ds
  running-Ends (answers none t ∷ es) [] selected ds =
      let (d, b) = running-Ends es [] selected ds in (d, ground (arith, b))
  running-Ends (answers (some c) t ∷ es) [] selected ds =
      let (d, b) = running-Ends es [] selected ds in (d, ground (arith, b))
  running-Ends (answers none t ∷ es) (name ∷ names) selected ds =
      let (d, b) = running-Ends es [] selected ds in (d, ground (arith, b))
  running-Ends (answers (some c) t ∷ es) (name ∷ []) selected ds =
      let (d, b) = running-Ends es [] selected (ds ++ file name c t ∷ []) in
      (d ∙ append_assoc ds _ _, ground (arith, b))
  running-Ends (answers (some c) t ∷ es) (name ∷ n ∷ names) selected ds =
      let (d, b) = running-Ends es (n ∷ names) selected (ds ++ file name c t ∷ []) in
      (d ∙ append_assoc ds _ _, ground (arith, b))

  -- After a click on the button that can be clicked, whatever is selected meanwhile: the files that are
  -- saved are, after those from before, one for each database that was selected at the click, in that
  -- order, with the contents of the server's answers as far as they have come before the first error;
  -- and the button is disabled exactly as long as there were fewer answers than those databases and no
  -- error among them.
  pub steps-files :
      (s : Panel B) (es : List (Event B))
      → is_nil s.selected ≡ false
      → s.downloading ≡ false
      → ((steps es (click_backup s)).downloads
          ≡ s.downloads ++ files s.selected (before_error (answers_of es)))
        × ((steps es (click_backup s)).downloading
            ≡ (ltb (length (answers_of es)) (length s.selected) && not (has_error (answers_of es))))
  unfolding click_backup
  steps-files s es h k = by_selected s.selected h
    where
      by_selected :
          (names : List Text)
          → is_nil names ≡ false
          → Ends names s.downloads es (steps es (click_backup (record s { selected = names })))
      by_selected [] i = absurd (ground (arith, i))
      by_selected (name ∷ names) i =
          rw k (running-Ends es (name ∷ names) (name ∷ names) s.downloads)
