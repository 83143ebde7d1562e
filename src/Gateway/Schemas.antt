-- ===== src/Gateway/Schemas.antt =====
-- What the input schemas that cmd/mcp-gateway/main.go lists allow, and what the gateway reads of it.
use xiuxian.Base.{◌^◌, true, Option, none, some, List, [], ◌∷◌, String, ◌≡◌, ◌≢◌, ◌⊎◌}
use xiuxian.Base.Int.{pos, ◌<ℤ◌}
use xiuxian.Base.Float.{Float64}
use xiuxian.Base.Dict.{lookup}
use xiuxian.Gateway.{Argument, text_argument, number_value, other_argument, Arguments}
use xiuxian.Gateway.Tools.{
  FieldKind, string_field, number_field, integer_field, one_of, InputSchema,
}

module _ (fl : Float64) where
  open fl use {F, eq, le, lt, of_int, whole_part, trunc}

  -- What the schema of a field allows: of an integer, that it is whole and at least 1, however large.
  -- A field that is left out is no fault of its own.
  abbrev pub FieldOk : FieldKind → Option (Argument F) → Type 0
  FieldOk kind none = Unit {0}
  FieldOk string_field (some (text_argument s)) = Unit {0}
  FieldOk number_field (some (number_value x)) = Unit {0}
  FieldOk integer_field (some (number_value x)) =
      (eq x (whole_part x) ≡ true) × (le (of_int (pos 1)) x ≡ true)
  FieldOk (one_of choices) (some (text_argument s)) = OneOf s choices
    where
      OneOf : String → List String → Type 0
      OneOf s [] = ⊥
      OneOf s (c ∷ cs) = (s ≡ c) ⊎ OneOf s cs
  FieldOk kind a = ⊥

  abbrev pub FieldsOk : List (String × FieldKind) → Arguments fl → Type 0
  FieldsOk [] a = Unit {0}
  FieldsOk ((k, kind) ∷ fields) a = FieldOk kind (lookup k a) × FieldsOk fields a

  abbrev pub Present : List String → Arguments fl → Type 0
  Present [] a = Unit {0}
  Present (k ∷ ks) a = (lookup k a ≢ none) × Present ks a

  -- Arguments that the schema of a tool accepts.
  abbrev pub Accepts : InputSchema → Arguments fl → Type 0
  Accepts schema a = FieldsOk schema.properties a × Present schema.required a

  -- The integers among the arguments are below 2^63, the numbers that int64 holds.
  abbrev pub IntegerFits : FieldKind → Option (Argument F) → Type 0
  IntegerFits integer_field (some (number_value x)) = lt x (of_int (pos (2 ^ 63))) ≡ true
  IntegerFits kind a = Unit {0}

  abbrev pub IntegersFit : List (String × FieldKind) → Arguments fl → Type 0
  IntegersFit [] a = Unit {0}
  IntegersFit ((k, kind) ∷ fields) a = IntegerFits kind (lookup k a) × IntegersFit fields a

  -- Converting a float64 to int64 drops the fraction, where int64 holds the result: from 1 on it is
  -- positive.
  abbrev pub Truncates : Type 0
  Truncates =
      (x : F)
      → le (of_int (pos 1)) x ≡ true
      → lt x (of_int (pos (2 ^ 63))) ≡ true
      → pos 0 <ℤ trunc x

  -- The same, with integers as the gateway reads them.
  abbrev pub IntegerRead : Option (Argument F) → Type 0
  IntegerRead (some (number_value x)) = (eq x (whole_part x) ≡ true) × (pos 0 <ℤ trunc x)
  IntegerRead none = Unit {0}
  IntegerRead (some (text_argument s)) = ⊥
  IntegerRead (some other_argument) = ⊥

  abbrev pub FieldRead : FieldKind → Option (Argument F) → Type 0
  FieldRead integer_field a = IntegerRead a
  FieldRead string_field a = FieldOk string_field a
  FieldRead number_field a = FieldOk number_field a
  FieldRead (one_of choices) a = FieldOk (one_of choices) a

  abbrev pub FieldsRead : List (String × FieldKind) → Arguments fl → Type 0
  FieldsRead [] a = Unit {0}
  FieldsRead ((k, kind) ∷ fields) a = FieldRead kind (lookup k a) × FieldsRead fields a

  abbrev pub Reads : InputSchema → Arguments fl → Type 0
  Reads schema a = FieldsRead schema.properties a × Present schema.required a

  integer_read :
      (o : Option (Argument F))
      → Truncates
      → FieldOk integer_field o
      → IntegerFits integer_field o
      → IntegerRead o
  integer_read none t h f = tt
  integer_read (some (number_value x)) t h f = (h.0, t x h.1 f)
  integer_read (some (text_argument s)) t h f = absurd h
  integer_read (some other_argument) t h f = absurd h

  field_read :
      (kind : FieldKind) (o : Option (Argument F))
      → Truncates
      → FieldOk kind o
      → IntegerFits kind o
      → FieldRead kind o
  field_read integer_field o t h f = integer_read o t h f
  field_read string_field o t h f = h
  field_read number_field o t h f = h
  field_read (one_of choices) o t h f = h

  pub fields_read :
      (fields : List (String × FieldKind)) (a : Arguments fl)
      → Truncates
      → FieldsOk fields a
      → IntegersFit fields a
      → FieldsRead fields a
  fields_read [] a t h f = tt
  fields_read ((k, kind) ∷ fields) a t h f =
      (field_read kind (lookup k a) t h.0 f.0, fields_read fields a t h.1 f.1)
