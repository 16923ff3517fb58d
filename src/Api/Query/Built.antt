-- ===== src/Api/Query/Built.antt =====
-- What holds of a query that was built, and the page that it asks for.
use vfobs.Prelude.{
  sym, get_or, ap, ◌∙◌, ℕ, ◌≤◌, ◌≡◌, ◌⊎◌, inl, inr, refl, String, Option, none, some, List, [],
  ◌++◌, arith, length, Bool-cases, Option-cases,
}
use vfobs.Prelude.Dict
use vfobs.Prelude.Dict.{string_key}
use vfobs.Prelude.Int.{ℤ, pos, negsuc, ltb_ℤ}
use vfobs.Prelude.Result.{ok, raise, validation_error, http_exception, ◌>>=◌}
use vfobs.Events.Platform.{Platform}
use vfobs.Repository.Log.{hits}
use vfobs.Repository.Interface.{EventRepository, View, Contract}
use vfobs.Api.Reads.{EventQuery, list_events}
use vfobs.Api.Query.Meant.{later, last_value, FromIdOf, LimitOf, IsQueryOf, get-raw, known_lem}
use vfobs.Api.Reads.Paging.{meets, remaining, list_events_page}
use vfobs.Api.Query.{
  query_of, type_field, field_ge, field_le, Pydantic, from_id_field, limit_field, model_validate,
  build_event_query, all_known, dict_of,
}

-- A cursor that is not negative, and a limit from 1 to 1000.
pub record IsInRange (q : EventQuery) : Type 0 where
  pub size : ℕ
  pub limit : q.limit ≡ pos size
  pub low : 1 ≤ size
  pub high : size ≤ 1000
  pub start : (q.from_id ≡ none) ⊎ ((n : ℕ) × (q.from_id ≡ some (pos n)))

page_range :
    (i : ℤ)
    → ((field_ge (pos 1) i >>= field_le (pos 1000)) ≡ raise validation_error)
      ⊎ ((n : ℕ) × ((field_ge (pos 1) i >>= field_le (pos 1000)) ≡ ok (pos n))
          × (1 ≤ n)
          × (n ≤ 1000)
          × (i ≡ pos n))
page_range (negsuc n) = inl (ground arith)
page_range (pos n) = elim (Bool-cases (ltb_ℤ (pos n) (pos 1))) [
  | inl e ↦ inl (rw e refl)
  | inr e ↦ elim (Bool-cases (ltb_ℤ (pos 1000) (pos n))) [
    | inl f ↦ inl (rw (e, f) refl)
    | inr f ↦ inr (n, rw (e, f) refl, ground (arith, e), ground (arith, f), refl)
  ]
]

cursor_range :
    (i : ℤ)
    → (field_ge (pos 0) i ≡ raise validation_error)
      ⊎ ((n : ℕ) × (field_ge (pos 0) i ≡ ok (pos n)) × (i ≡ pos n))
cursor_range (negsuc n) = inl (ground arith)
cursor_range (pos n) = inr (n, ground arith, refl)

limit_field-cases :
    (Y : Pydantic) (o : Option String)
    → ((limit_field Y o ≡ raise validation_error) × ((x : ℤ) → ¬ LimitOf Y o x))
      ⊎ ((n : ℕ) × (limit_field Y o ≡ ok (pos n)) × (1 ≤ n) × (n ≤ 1000) × LimitOf Y o (pos n))
unfolding limit_field
limit_field-cases Y none = inr (100, refl, omega arith, omega arith, inl (refl, refl))
limit_field-cases Y (some t) = elim (Option-cases (Y.parse_int t)) [
  | inl e ↦
      inl
        (rw e refl, λ x m. elim m [ inl (a, _) ↦ cc a | inr (t', n, g, p, _, _, _) ↦ cc (e, g, p) ])
  | inr (i, e) ↦ elim (page_range i) [
    | inl r ↦ inl (
      rw e r,
      λ x m. elim m [
        | inl (a, _) ↦ cc a
        | inr (t', n, g, p, low, high, _) ↦
            let same : i ≡ pos n = cc (e, g, p) in ground (arith, rw same at r, low, high)
      ],
    )
    | inr (n, r, low, high, same) ↦
        inr (n, rw e r, low, high, inr (t, n, refl, e ∙ ap some same, low, high, refl))
  ]
]

from_id_field-cases :
    (Y : Pydantic) (o : Option String)
    → ((from_id_field Y o ≡ raise validation_error) × ((x : Option ℤ) → ¬ FromIdOf Y o x))
      ⊎ ((o' : Option ℤ) × (from_id_field Y o ≡ ok o')
          × ((o' ≡ none) ⊎ ((n : ℕ) × (o' ≡ some (pos n))))
          × FromIdOf Y o o')
unfolding from_id_field
from_id_field-cases Y none = inr (none, refl, inl refl, inl (refl, refl))
from_id_field-cases Y (some t) = elim (Option-cases (Y.parse_int t)) [
  | inl e ↦
      inl (rw e refl, λ x m. elim m [ inl (a, _) ↦ cc a | inr (t', n, g, p, _) ↦ cc (e, g, p) ])
  | inr (i, e) ↦ elim (cursor_range i) [
    | inl r ↦ inl (
      rw (e, r) refl,
      λ x m. elim m [
        | inl (a, _) ↦ cc a
        | inr (t', n, g, p, _) ↦ let same : i ≡ pos n = cc (e, g, p) in ground (arith, rw same at r)
      ],
    )
    | inr (n, r, same) ↦
        inr (some (pos n), rw (e, r) refl, inr (n, refl), inr (t, n, refl, e ∙ ap some same, refl))
  ]
]

type_lem :
    (params : List (String × String))
    → type_field (Dict.get "type" (dict_of [] params)) (Dict.get "type_" (dict_of [] params))
      ≡ later (last_value "type" params) (last_value "type_" params)
type_lem params =
    rw (get-raw params "type", get-raw params "type_")
      (go (last_value "type" params) (last_value "type_" params))
  where
    go : (a b : Option String) → type_field a b ≡ later a b
    go none b = refl
    go (some x) b = refl

model_validate-cases :
    (Y : Pydantic) (params : List (String × String))
    → ((model_validate Y (dict_of [] params) ≡ raise validation_error)
        × ((q : EventQuery) → ¬ IsQueryOf Y params q))
      ⊎ ((q : EventQuery) × (model_validate Y (dict_of [] params) ≡ ok q)
          × IsQueryOf Y params q
          × IsInRange q)
unfolding model_validate
model_validate-cases Y params =
    let raw = dict_of [] params in
    elim (Bool-cases (all_known Y raw raw)) [
      | inr unknown ↦
          inl (rw (model_validate, unknown) refl, λ q m. cc (unknown, known_lem Y params, m.known))
      | inl known ↦ elim (from_id_field-cases Y (Dict.get "from_id" raw)) [
        | inl (bad, none_is) ↦ inl (
          rw (model_validate, known, bad) refl,
          λ q m. none_is q.from_id (rw (get-raw params "from_id") m.from_id),
        )
        | inr (from_id, good, start, is_from) ↦ elim (limit_field-cases Y (Dict.get "limit" raw)) [
          | inl (bad, none_is) ↦ inl (
            rw (model_validate, known, good, bad) refl,
            λ q m. none_is q.limit (rw (get-raw params "limit") m.limit),
          )
          | inr (n, fine, low, high, is_limit) ↦ inr (
            query_of raw from_id (pos n),
            rw (model_validate, known, good, fine) refl,
            record {
              known = sym (known_lem Y params) ∙ known;
              workgraph_id = get-raw params "workgraph_id";
              task_id = get-raw params "task_id";
              agent_id = get-raw params "agent_id";
              type_ = type_lem params;
              type_namespace = get-raw params "type_namespace";
              org_id = ap (λ o. get_or o "viloforge") (get-raw params "org_id");
              from_id = rw (get-raw params "from_id") at is_from;
              limit = rw (get-raw params "limit") at is_limit;
            },
            record { size = n; limit = refl; low = low; high = high; start = start },
          )
        ]
      ]
    ]

module _ {P : Platform} {R : EventRepository P} {V : View R} (C : Contract R V) where
  -- A page and what its cursor leads to are all that the query asks for, and it is within its limit.
  pub record IsPage (s : R.State) (q : EventQuery) : Type 0 where
    pub all :
        hits (meets q) q.from_id (V.log s)
        ≡ (list_events R s q).events
          ++ remaining (meets q) (V.log s) (list_events R s q).next_from_id
    pub size : length (list_events R s q).events ≤ 1000

  -- Over a valid repository the parameters of a URL either stand for no query and are refused with 422,
  -- or they give the query that they stand for, and its response is a page: its events, at most 1000,
  -- and what its cursor leads to make up all events that have what the query names, from its cursor on.
  pub build_event_query-IsPage :
      (Y : Pydantic) (s : R.State) (params : List (String × String))
      → V.Valid s
      → ((build_event_query Y params ≡ raise (http_exception 422 (Y.detail (dict_of [] params))))
          × ((q : EventQuery) → ¬ IsQueryOf Y params q))
        ⊎ ((q : EventQuery) × (build_event_query Y params ≡ ok q)
            × IsQueryOf Y params q
            × IsInRange q
            × IsPage s q)
  unfolding build_event_query
  build_event_query-IsPage Y s params v = elim (model_validate-cases Y params) [
    | inl (bad, no_query) ↦ inl (rw bad refl, no_query)
    | inr (q, good, is_query, range) ↦
        let (all, size) = list_events_page C s q range.size v range.limit range.low range.high in
        inr (
          q,
          rw good refl,
          is_query,
          range,
          record { all = all; size = omega (arith, size, range.high) },
        )
  ]
