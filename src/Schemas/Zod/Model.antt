-- ===== src/Schemas/Zod/Model.antt =====
-- Functions that have the documented behaviour of the operations of zod.
use pgmanager.Common.{
  Integer, if◌then◌else◌, Bool-cases, ◌≡◌, ◌↔◌, refl, ap, ◌∙◌, ◌>>=◌, bind_iff, Bool, Option, none,
  some, Option-cases, List, [], ◌∷◌, Text, inl, inr, arith,
}
use pgmanager.Dict.{lookup}
use pgmanager.Schemas.Zod.{
  is_nan, Json, null, bool, num, str, arr, obj, elems, get, Schema, Each, Reads, IsText, IsNumber,
  IsBool, IsOneOf, IsArray, IsOptional, IsNullable, IsDefaulted, IsObject, Zod,
}

abbrev string : Schema Text
string (some (str t)) = some t
string _ = none

abbrev number : Schema Integer
number (some (num n)) = if is_nan n then none else some n
number _ = none

abbrev boolean : Schema Bool
boolean (some (bool b)) = some b
boolean _ = none

abbrev enum : {A : Type 0} → List (Text × A) → Schema A
enum names (some (str t)) = lookup t names
enum names _ = none

abbrev all_of : {A : Type 0} → Schema A → List Json → Option (List A)
all_of s [] = some []
all_of s (v ∷ vs) = do a ← s (some v); later ← all_of s vs; some (a ∷ later)

abbrev array : {A : Type 0} → Schema A → Schema (List A)
array s (some (arr vs)) = all_of s (elems vs)
array s _ = none

abbrev some_of : {A : Type 0} → Option A → Option (Option A)
some_of none = none
some_of (some a) = some (some a)

abbrev optional : {A : Type 0} → Schema A → Schema (Option A)
optional s none = some none
optional s (some j) = some_of (s (some j))

abbrev nullable : {A : Type 0} → Schema A → Schema (Option A)
nullable s (some null) = some none
nullable s v = some_of (s v)

abbrev default : {A : Type 0} → A → Schema A → Schema A
default d s none = some d
default d s (some j) = s (some j)

abbrev object : {A : Type 0} → ((Text → Option Json) → Option A) → Schema A
object f (some (obj ps)) = f (get ps)
object f _ = none

pub string_reads : Reads string IsText
string_reads (some (str t)) a = (λ h. ground (arith, h), λ h. ground (arith, h))
string_reads v a = (λ h. absurd (ground (arith, h)), λ h. absurd (ground (arith, h)))

number_accepts : (v : Option Json) (n : Integer) → IsNumber v n → number v ≡ some n
number_accepts v n h = rw (h.0, h.1) refl

pub number_reads : Reads number IsNumber
number_reads (some (num n)) a = (
  λ h. elim (Bool-cases (is_nan n)) [
    | inl e ↦ absurd (ground (arith, e, h))
    | inr e ↦ (ground (arith, e, h), ground (arith, e, h))
  ],
  number_accepts (some (num n)) a,
)
number_reads v a = (λ h. absurd (ground (arith, h)), number_accepts v a)

pub boolean_reads : Reads boolean IsBool
boolean_reads (some (bool b)) a = (λ h. ground (arith, h), λ h. ground (arith, h))
boolean_reads v a = (λ h. absurd (ground (arith, h)), λ h. absurd (ground (arith, h)))

enum_accepts :
    {A : Type 0} (names : List (Text × A)) (v : Option Json) (a : A)
    → IsOneOf names v a
    → enum names v ≡ some a
enum_accepts names v a h = rw h.1 h.2

pub enum_reads : {A : Type 0} (names : List (Text × A)) → Reads (enum names) (IsOneOf names)
enum_reads names (some (str t)) a = (λ h. (t, refl, h), enum_accepts names (some (str t)) a)
enum_reads names v a = (λ h. absurd (ground (arith, h)), enum_accepts names v a)

head_of : {A : Type 0} {x y : A} {xs ys : List A} → some (x ∷ xs) ≡ some (y ∷ ys) → x ≡ y
head_of h = ground (arith, h)

tail_of : {A : Type 0} {x y : A} {xs ys : List A} → some (x ∷ xs) ≡ some (y ∷ ys) → xs ≡ ys
tail_of h = ground (arith, h)

module _ {A : Type 0} (s : Schema A) (R : Option Json → A → Type 0) (r : Reads s R) where
  some_of_reads :
      (v : Option Json) (o : Option A) → (some_of (s v) ≡ some o) ↔ ((a : A) × (o ≡ some a) × R v a)
  some_of_reads v o = elim (Option-cases (s v)) [
    | inl e ↦ (λ h. absurd (ground (arith, e, h)), λ h. absurd (ground (arith, e, (r v h.0).1 h.2)))
    | inr (a, e) ↦
        (λ h. (a, ground (arith, e, h), (r v a).0 e), λ h. rw (h.1) (rw ((r v h.0).1 h.2) refl))
  ]

  all_of_reads : (vs : List Json) (xs : List A) → (all_of s vs ≡ some xs) ↔ Each R vs xs
  all_of_reads [] [] = (λ h. tt, λ h. refl)
  all_of_reads [] (x ∷ xs) = (λ h. absurd (ground (arith, h)), λ h. absurd h)
  all_of_reads (v ∷ vs) [] = (λ h. absurd (ends h), λ h. absurd h)
    where
      ends : all_of s (v ∷ vs) ≡ some [] → ⊥
      ends h =
          let (a, e, i) = (bind_iff (s (some v)) _ _).0 h in
          let (ys, j, k) = (bind_iff (all_of s vs) _ _).0 i in ground (arith, k)
  all_of_reads (v ∷ vs) (x ∷ xs) = (
    λ h.
        let (a, e, i) = (bind_iff (s (some v)) _ _).0 h in
        let (ys, j, k) = (bind_iff (all_of s vs) _ _).0 i in
        (
          (r (some v) x).0 (e ∙ ap some (head_of k)),
          (all_of_reads vs xs).0 (j ∙ ap some (tail_of k)),
        ),
    λ h. (bind_iff (s (some v)) _ _).1 (
      x,
      (r (some v) x).1 h.0,
      (bind_iff (all_of s vs) _ _).1 (xs, (all_of_reads vs xs).1 h.1, refl),
    ),
  )

  array_accepts : (v : Option Json) (xs : List A) → IsArray R v xs → array s v ≡ some xs
  array_accepts v xs h = rw h.1 ((all_of_reads (elems h.0) xs).1 h.2)

  pub array_reads : Reads (array s) (IsArray R)
  array_reads (some (arr vs)) xs =
      (λ h. (vs, refl, (all_of_reads (elems vs) xs).0 h), array_accepts (some (arr vs)) xs)
  array_reads v xs = (λ h. absurd (ground (arith, h)), array_accepts v xs)

  pub optional_reads : Reads (optional s) (IsOptional R)
  optional_reads none o = (λ h. ground (arith, h), λ h. rw h refl)
  optional_reads (some j) o = some_of_reads (some j) o

  pub nullable_reads : Reads (nullable s) (IsNullable R)
  nullable_reads (some null) o = (λ h. ground (arith, h), λ h. rw h refl)
  nullable_reads v o = some_of_reads v o

  pub default_reads : (d : A) → Reads (default d s) (IsDefaulted R d)
  default_reads d none a = (λ h. ground (arith, h), λ h. rw h refl)
  default_reads d (some j) a = r (some j) a

module _ {A : Type 0} (f : (Text → Option Json) → Option A) where
  module _ (R : (Text → Option Json) → A → Type 0) where
    object_accepts :
        ((g : Text → Option Json) (a : A) → (f g ≡ some a) ↔ R g a)
        → (v : Option Json) (a : A) → IsObject R v a
        → object f v ≡ some a
    object_accepts r v a h = rw h.1 ((r (get h.0) a).1 h.2)

    pub object_reads :
        ((g : Text → Option Json) (a : A) → (f g ≡ some a) ↔ R g a) → Reads (object f) (IsObject R)
    object_reads r (some (obj ps)) a =
        (λ h. (ps, refl, (r (get ps) a).0 h), object_accepts r (some (obj ps)) a)
    object_reads r v a = (λ h. absurd (ground (arith, h)), object_accepts r v a)

unfoldable pub zod : Zod
zod = record {
  string = string;
  number = number;
  boolean = boolean;
  any = λ v. some v;
  enum = enum;
  array = array;
  optional = optional;
  nullable = nullable;
  default = default;
  object = object;
  string_reads = string_reads;
  number_reads = number_reads;
  boolean_reads = boolean_reads;
  any_reads = λ v. refl;
  enum_reads = enum_reads;
  array_reads = λ s R r. array_reads s R r;
  optional_reads = λ s R r. optional_reads s R r;
  nullable_reads = λ s R r. nullable_reads s R r;
  default_reads = λ d s R r. default_reads s R r d;
  object_reads = λ f R r. object_reads f R r;
}
