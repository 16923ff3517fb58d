-- ===== src/Events/Fields.antt =====
-- Fields of pydantic models on JSON: how a model of src/vfobs reads the values that it declares.
use vfobs.Prelude.{
  ◌≡◌, String, str_eq, Bool, true, Option, none, some, List, [], ◌∷◌, if◌then◌else◌,
}
use vfobs.Prelude.Int.{ℤ}
use vfobs.Prelude.Result.{Result, ok, raise, some_or, Exception, validation_error, ◌>>=◌}
use vfobs.Events.Platform.{Platform}
use vfobs.Events.Json.{
  Json, null, int, float, str, time, array, object, Items, Members, done, member,
}

-- pydantic's validators of the scalar types on JSON values; None where they raise. `as_int`, say,
-- also reads some texts.
pub record Scalars (P : Platform) : Type 0 where
  pub as_str : Json P → Option String
  pub as_int : Json P → Option ℤ
  pub as_float : Json P → Option P.Float
  pub as_datetime : Json P → Option P.Datetime
  -- JSON has a number for it
  pub is_finite : P.Float → Bool

-- Documented: each reads the JSON that is dumped of a value of its type.
pub record ScalarLaws {P : Platform} (S : Scalars P) : Type 0 where
  pub as_str-str : (s : String) → S.as_str (str s) ≡ some s
  pub as_int-int : (i : ℤ) → S.as_int (int i) ≡ some i
  pub as_float-float : (x : P.Float) → S.is_finite x ≡ true → S.as_float (float x) ≡ some x
  pub as_datetime-time : (d : P.Datetime) → S.as_datetime (time d) ≡ some d

module _ {P : Platform} where
  -- The value under a key.
  unfoldable pub get_member : String → Members P → Option (Json P)
  get_member k done = none
  get_member k (member j v members) =
      let rest = get_member k members in if str_eq j k then some v else rest

  -- The text of a tag, or of a Literal.
  unfoldable pub text_of : Option (Json P) → Result Exception String
  text_of (some (str s)) = ok s
  text_of _ = raise validation_error

  unfoldable pub as_object : Json P → Result Exception (Members P)
  as_object (object members) = ok members
  as_object _ = raise validation_error

  -- A field without a default, of a type.
  unfoldable pub required :
      {A : Type 0} → (Json P → Option A) → Option (Json P) → Result Exception A
  required as_type none = raise validation_error
  required as_type (some j) = some_or validation_error (as_type j)

  -- A field with a default, None where it is not given.
  unfoldable pub defaulted :
      {A : Type 0} → (Json P → Option A) → Option (Json P) → Result Exception (Option A)
  defaulted as_type none = ok none
  defaulted as_type (some j) = do a ← some_or validation_error (as_type j); ok (some a)

  -- A field of type `A | None` with the default None.
  unfoldable pub nullable :
      {A : Type 0} → (Json P → Option A) → Option (Json P) → Result Exception (Option A)
  unfolding defaulted
  nullable as_type (some null) = ok none
  nullable as_type given = defaulted as_type given

  -- `list[str]`
  unfoldable pub str_items : (Json P → Option String) → Items P → Result Exception (List String)
  str_items as_str Items.no_items = ok []
  str_items as_str (Items.item j items) = do
    s ← some_or validation_error (as_str j)
    rest ← str_items as_str items
    ok (s ∷ rest)

  unfoldable pub str_list :
      (Json P → Option String) → Option (Json P) → Result Exception (List String)
  unfolding str_items
  str_list as_str (some (array items)) = str_items as_str items
  str_list as_str _ = raise validation_error

  -- `dict[str, str]`
  unfoldable pub str_members :
      (Json P → Option String) → Members P → Result Exception (List (String × String))
  str_members as_str done = ok []
  str_members as_str (member k j members) = do
    s ← some_or validation_error (as_str j)
    rest ← str_members as_str members
    ok ((k, s) ∷ rest)

  unfoldable pub str_dict :
      (Json P → Option String) → Option (Json P) → Result Exception (List (String × String))
  unfolding str_members
  str_dict as_str (some (object members)) = str_members as_str members
  str_dict as_str _ = raise validation_error
