-- ===== src/Api/Query/Meant.antt =====
-- The query that the parameters of a URL stand for, told without `build_event_query`.
use vfobs.Prelude.{
  Bool, false, ◌∷◌, ◌&&◌, ◌||◌, not, str_eq, eq_iff, is_some, get_or, ap, ◌∙◌, if◌then◌else◌, ℕ,
  ◌≤◌, ◌≡◌, ◌⊎◌, inl, inr, refl, String, true, Option, none, some, List, [], arith, Bool-cases,
}
use vfobs.Prelude.Dict
use vfobs.Prelude.Dict.{string_key}
use vfobs.Prelude.Int.{ℤ, pos}
use vfobs.Api.Reads.{EventQuery}
use vfobs.Api.Query.{Pydantic, all_known, dict_of, is_known, contains}

-- The last value that a name is given; it is the one that counts.
abbrev pub later : Option String → Option String → Option String
later none earlier = earlier
later (some value) earlier = some value

abbrev pub last_value : String → List (String × String) → Option String
last_value name [] = none
last_value name ((k, value) ∷ rest) =
    later (last_value name rest) (if str_eq k name then some value else none)

-- A name that a query may have: those of the fields, but `type` for `type_`, which may also stand
-- where there is no `type`, or beside it if pydantic allows that.
abbrev pub known_name : Pydantic → List (String × String) → String → Bool
known_name Y params name =
    str_eq name "workgraph_id"
    || (str_eq name "task_id"
        || (str_eq name "agent_id"
            || (str_eq name "type"
                || (str_eq name "type_namespace"
                    || (str_eq name "org_id"
                        || (str_eq name "from_id"
                            || (str_eq name "limit"
                                || (str_eq name "type_"
                                    && (Y.takes_both
                                        || not (is_some (last_value "type" params)))))))))))

abbrev pub names_known : Pydantic → List (String × String) → List (String × String) → Bool
names_known Y params [] = true
names_known Y params ((name, value) ∷ rest) = known_name Y params name && names_known Y params rest

-- What a text that is given or not comes to as `from_id`, and as `limit`.
abbrev pub FromIdOf : Pydantic → Option String → Option ℤ → Type 0
FromIdOf Y o x =
    ((o ≡ none) × (x ≡ none))
    ⊎ ((t : String) × (n : ℕ) × (o ≡ some t) × (Y.parse_int t ≡ some (pos n)) × (x ≡ some (pos n)))

abbrev pub LimitOf : Pydantic → Option String → ℤ → Type 0
LimitOf Y o x =
    ((o ≡ none) × (x ≡ pos 100))
    ⊎ ((t : String) × (n : ℕ) × (o ≡ some t)
        × (Y.parse_int t ≡ some (pos n))
        × (1 ≤ n)
        × (n ≤ 1000)
        × (x ≡ pos n))

-- The query that parameters of a URL stand for: all their names are known, each field has the last
-- value of its name, and `from_id` and `limit` are integers in their ranges.
pub record IsQueryOf (Y : Pydantic) (params : List (String × String)) (q : EventQuery)
    : Type 0 where
  pub known : names_known Y params params ≡ true
  pub workgraph_id : q.workgraph_id ≡ last_value "workgraph_id" params
  pub task_id : q.task_id ≡ last_value "task_id" params
  pub agent_id : q.agent_id ≡ last_value "agent_id" params
  pub type_ : q.type_ ≡ later (last_value "type" params) (last_value "type_" params)
  pub type_namespace : q.type_namespace ≡ last_value "type_namespace" params
  pub org_id : q.org_id ≡ get_or (last_value "org_id" params) "viloforge"
  pub from_id : FromIdOf Y (last_value "from_id" params) q.from_id
  pub limit : LimitOf Y (last_value "limit" params) q.limit

get-dict_of :
    (name : String) (raw params : List (String × String))
    → Dict.get name (dict_of raw params) ≡ later (last_value name params) (Dict.get name raw)
unfolding dict_of
get-dict_of name raw [] = refl
get-dict_of name raw ((k, v) ∷ rest) =
    get-dict_of name (Dict.set k v raw) rest
    ∙ ap (later (last_value name rest)) (Dict.get-set k name v raw)
    ∙ go (last_value name rest) (str_eq k name)
  where
    go :
        (o : Option String) (b : Bool)
        → later o (if b then some v else Dict.get name raw)
          ≡ later (later o (if b then some v else none)) (Dict.get name raw)
    go none true = refl
    go none false = refl
    go (some w) b = refl

pub get-raw :
    (params : List (String × String)) (name : String)
    → Dict.get name (dict_of [] params) ≡ last_value name params
unfolding Dict.get
get-raw params name = get-dict_of name [] params ∙ go (last_value name params)
  where
    go : (o : Option String) → later o none ≡ o
    go none = refl
    go (some v) = refl

all_known-set :
    (Y : Pydantic) (raw : List (String × String)) (k v : String) (d : List (String × String))
    → all_known Y raw (Dict.set k v d) ≡ (is_known Y raw k && all_known Y raw d)
unfolding all_known Dict.set
all_known-set Y raw k v [] = refl
all_known-set Y raw k v ((j, w) ∷ d) = elim (Bool-cases (str_eq j k)) [
  | inl e ↦ rw (e, (eq_iff j k).0 e) (twice (is_known Y raw k) (all_known Y raw d))
  | inr e ↦
      rw (e, all_known-set Y raw k v d)
        (swap (is_known Y raw k) (is_known Y raw j) (all_known Y raw d))
]
  where
    twice : (a b : Bool) → (a && b) ≡ (a && (a && b))
    twice a b = ground arith

    swap : (a b c : Bool) → (b && (a && c)) ≡ (a && (b && c))
    swap a b c = ground arith

all_known-dict_of :
    (Y : Pydantic) (raw d params : List (String × String))
    → all_known Y raw (dict_of d params) ≡ (all_known Y raw d && all_known Y raw params)
unfolding all_known dict_of
all_known-dict_of Y raw d [] = ground arith
all_known-dict_of Y raw d ((k, v) ∷ rest) =
    all_known-dict_of Y raw (Dict.set k v d) rest
    ∙ rw (all_known-set Y raw k v d)
        (shift (is_known Y raw k) (all_known Y raw d) (all_known Y raw rest))
  where
    shift : (a b c : Bool) → ((a && b) && c) ≡ (b && (a && c))
    shift a b c = ground arith

is_known-known_name :
    (Y : Pydantic) (params : List (String × String)) (name : String)
    → is_known Y (dict_of [] params) name ≡ known_name Y params name
unfolding is_known contains
is_known-known_name Y params name = rw (get-raw params "type") (ground arith)

all_known-names_known :
    (Y : Pydantic) (params rest : List (String × String))
    → all_known Y (dict_of [] params) rest ≡ names_known Y params rest
unfolding all_known
all_known-names_known Y params [] = refl
all_known-names_known Y params ((k, v) ∷ rest) =
    rw (is_known-known_name Y params k, all_known-names_known Y params rest)

pub known_lem :
    (Y : Pydantic) (params : List (String × String))
    → all_known Y (dict_of [] params) (dict_of [] params) ≡ names_known Y params params
unfolding all_known
known_lem Y params =
    all_known-dict_of Y (dict_of [] params) [] params ∙ all_known-names_known Y params params
