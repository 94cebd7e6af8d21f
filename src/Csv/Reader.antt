-- ===== src/Csv/Reader.antt =====
-- A reader of comma-separated values as RFC 4180 describes them, with a line feed between records.
use pgmanager.Common.{ℕ, List, [], ◌∷◌, Text, ◌==◌, if◌then◌else◌}

-- Where the reader is: at the start of a field, within one that has no quotes, within quotes, or
-- behind a quote within quotes.
pub data Mode : Type 0 where
  fresh bare quoted closing : Mode

-- What is read from some place on: the rest of the field, the other fields of its record, and the
-- records behind it.
pub record Rest : Type 0 where
  pub field : Text
  pub others : List Text
  pub records : List (List Text)

abbrev pub done : Rest
done = record { field = []; others = []; records = [] }

abbrev pub push : ℕ → Rest → Rest
push c r = record r { field = c ∷ r.field }

abbrev pub next_field : Rest → Rest
next_field r = record { field = []; others = r.field ∷ r.others; records = r.records }

abbrev pub next_record : Rest → Rest
next_record r = record { field = []; others = []; records = (r.field ∷ r.others) ∷ r.records }

-- One unit outside quotes, with what is read behind it.
abbrev pub outside : ℕ → Rest → Rest → Rest
outside c start within =
    if c == b',' then next_field start else if c == 10 then next_record start else push c within

unfoldable pub read : Mode → Text → Rest
read m [] = done
read fresh (c ∷ s) =
    let opened = read quoted s in
    let plain = outside c (read fresh s) (read bare s) in if c == b'"' then opened else plain
read bare (c ∷ s) = outside c (read fresh s) (read bare s)
read quoted (c ∷ s) =
    let shut = read closing s in
    let more = push c (read quoted s) in if c == b'"' then shut else more
read closing (c ∷ s) =
    let more = push b'"' (read quoted s) in
    let plain = outside c (read fresh s) (read bare s) in if c == b'"' then more else plain

-- The records of a text.
unfoldable pub read_csv : Text → List (List Text)
unfolding read
read_csv s = let r = read fresh s in (r.field ∷ r.others) ∷ r.records
