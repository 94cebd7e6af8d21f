-- ===== src/Schemas/Zod.antt =====
-- JSON values, and what backend/ui/src/lib/schemas.ts uses of the package zod: an interface of
-- operations with the behaviour that the package documents for them. `none` among the arguments is a
-- property that is absent. Of the numbers only the integers are modelled.
pub mod Model
use pgmanager.Common.{
  Integer, nan, false, ◌≡◌, ◌≢◌, ◌↔◌, ℕ, Bool, true, Option, none, some, List, [], ◌∷◌, map, Text,
}
use pgmanager.Dict.{lookup}
use pgmanager.Selection.{mem}

mutual
  pub data Json : Type 0 where
    null : Json
    bool : Bool → Json
    num : Integer → Json
    str : Text → Json
    arr : Elems → Json
    obj : Props → Json

  pub data Elems : Type 0 where
    nil : Elems
    cons : Json → Elems → Elems

  pub data Props : Type 0 where
    end : Props
    prop : Text → Json → Props → Props

abbrev pub elems : Elems → List Json
elems nil = []
elems (cons v vs) = v ∷ elems vs

-- The properties of an object, which have distinct names.
abbrev pub props : Props → List (Text × Json)
props end = []
props (prop k v ps) = (k, v) ∷ props ps

abbrev pub get : Props → Text → Option Json
get ps k = lookup k (props ps)

-- A schema: what it makes of a value, `none` if it refuses it.
abbrev pub Schema : Type 0 → Type 0
Schema A = Option Json → Option A

-- A list of values and what they stand for, one by one.
abbrev pub Each : {A : Type 0} → (Option Json → A → Type 0) → List Json → List A → Type 0
Each R [] [] = Unit
Each R (v ∷ vs) [] = ⊥
Each R [] (x ∷ xs) = ⊥
Each R (v ∷ vs) (x ∷ xs) = R (some v) x × Each R vs xs

-- A schema accepts exactly the values that stand for something, and as what they stand for.
abbrev pub Reads : {A : Type 0} → Schema A → (Option Json → A → Type 0) → Type 0
Reads {A} s R = (v : Option Json) (a : A) → (s v ≡ some a) ↔ R v a

abbrev pub IsText : Option Json → Text → Type 0
IsText v t = v ≡ some (str t)

-- `nan` is no number of JSON.
abbrev pub is_nan : Integer → Bool
is_nan nan = true
is_nan n = false

abbrev pub IsNumber : Option Json → Integer → Type 0
IsNumber v n = (v ≡ some (num n)) × (is_nan n ≡ false)

abbrev pub IsBool : Option Json → Bool → Type 0
IsBool v b = v ≡ some (bool b)

-- One of the names of a table, which says what each stands for.
abbrev pub IsOneOf : {A : Type 0} → List (Text × A) → Option Json → A → Type 0
IsOneOf names v a = (t : Text) × (v ≡ some (str t)) × (lookup t names ≡ some a)

module _ {A : Type 0} (R : Option Json → A → Type 0) where
  abbrev pub IsArray : Option Json → List A → Type 0
  IsArray v xs = (vs : Elems) × (v ≡ some (arr vs)) × Each R (elems vs) xs

  -- What is absent is undefined.
  abbrev pub IsOptional : Option Json → Option A → Type 0
  IsOptional none o = o ≡ none
  IsOptional (some j) o = (a : A) × (o ≡ some a) × R (some j) a

  -- Only `null` is null.
  abbrev pub IsNullable : Option Json → Option A → Type 0
  IsNullable (some null) o = o ≡ none
  IsNullable v o = (a : A) × (o ≡ some a) × R v a

  -- What is absent is the default, which stands for nothing else.
  abbrev pub IsDefaulted : A → Option Json → A → Type 0
  IsDefaulted d none a = a ≡ d
  IsDefaulted d (some j) a = R (some j) a

abbrev pub IsObject : {A : Type 0} → ((Text → Option Json) → A → Type 0) → Option Json → A → Type 0
IsObject R v a = (ps : Props) × (v ≡ some (obj ps)) × R (get ps) a

-- The operations; `object` is given what is to be made of the properties.
pub record Zod : Type 1 where
  pub string : Schema Text
  pub number : Schema Integer
  pub boolean : Schema Bool
  pub any : Schema (Option Json)
  pub enum : {A : Type 0} → List (Text × A) → Schema A
  pub array : {A : Type 0} → Schema A → Schema (List A)
  pub optional : {A : Type 0} → Schema A → Schema (Option A)
  pub nullable : {A : Type 0} → Schema A → Schema (Option A)
  pub default : {A : Type 0} → A → Schema A → Schema A
  pub object : {A : Type 0} → ((Text → Option Json) → Option A) → Schema A
  pub string_reads : Reads string IsText
  pub number_reads : Reads number IsNumber
  pub boolean_reads : Reads boolean IsBool
  pub any_reads : (v : Option Json) → any v ≡ some v
  pub enum_reads : {A : Type 0} (names : List (Text × A)) → Reads (enum names) (IsOneOf names)
  pub array_reads :
      {A : Type 0} (s : Schema A) (R : Option Json → A → Type 0)
      → Reads s R
      → Reads (array s) (IsArray R)
  pub optional_reads :
      {A : Type 0} (s : Schema A) (R : Option Json → A → Type 0)
      → Reads s R
      → Reads (optional s) (IsOptional R)
  pub nullable_reads :
      {A : Type 0} (s : Schema A) (R : Option Json → A → Type 0)
      → Reads s R
      → Reads (nullable s) (IsNullable R)
  pub default_reads :
      {A : Type 0} (d : A) (s : Schema A) (R : Option Json → A → Type 0)
      → Reads s R
      → Reads (default d s) (IsDefaulted R d)
  pub object_reads :
      {A : Type 0} (f : (Text → Option Json) → Option A) (R : (Text → Option Json) → A → Type 0)
      → ((g : Text → Option Json) (a : A) → (f g ≡ some a) ↔ R g a)
      → Reads (object f) (IsObject R)
