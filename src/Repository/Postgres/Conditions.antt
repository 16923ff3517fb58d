-- ===== src/Repository/Postgres/Conditions.antt =====
-- What the clauses and parameters of a query select, told without them.
use vfobs.Prelude.{
  ℕ, ◌≡◌, ◌⊎◌, inl, inr, refl, ap, sym, ◌∙◌, String, str_eq, Bool, true, false, ◌&&◌, Option, none,
  some, List, [], ◌∷◌, ◌++◌, arith, eq_iff, eq_refl, Option-cases, Bool-cases, if◌then◌else◌,
}
use vfobs.Prelude.Dict
use vfobs.Prelude.Dict.{string_key}
use vfobs.Prelude.Int.{pos}
use vfobs.Events.Platform.{Platform}
use vfobs.Repository.Postgres.Sql.{
  Row, Param, number, Params, takes_param, takes_params, Clause, test, param_of, bound_in,
  all_bound, test_opt, holds_at, holds, all_hold,
}
use vfobs.Repository.Postgres.{Where, and_clause}

-- A new parameter changes nothing for what is bound already.
get-set-bound :
    (k j : String) (v w : Param) (params : Params)
    → Dict.get k params ≡ none
    → Dict.get j params ≡ some w
    → Dict.get j (Dict.set k v params) ≡ some w
get-set-bound k j v w params fresh e = Dict.get-set k j v params ∙ go (Bool-cases (str_eq k j))
  where
    go :
        (str_eq k j ≡ true) ⊎ (str_eq k j ≡ false)
        → (if str_eq k j then some v else Dict.get j params) ≡ some w
    go (inl same) = absurd (cc (e, fresh, (eq_iff k j).0 same))
    go (inr other) = rw other e

module _ {P : Platform} {Json : Type 0} where
  holds_at-set :
      (k : String) (v : Param) (params : Params) (o : Option String) (c : Clause)
      → Dict.get k params ≡ none
      → bound_in params o ≡ true
      → (bound_in (Dict.set k v params) o ≡ true)
        × ((x : ℕ × Row P Json) → holds_at (Dict.set k v params) o c x ≡ holds_at params o c x)
  holds_at-set k v params none c fresh b = (refl, λ x. refl)
  holds_at-set k v params (some j) c fresh b = elim (Option-cases (Dict.get j params)) [
    | inl e ↦ absurd (cc (rw e at b))
    | inr (w, e) ↦
        let e' = get-set-bound k j v w params fresh e in
        (rw e' refl, λ x. ap (λ o. test_opt c o x) (e' ∙ sym e))
  ]

  all_hold-set :
      (k : String) (v : Param) (params : Params) (cs : List Clause)
      → Dict.get k params ≡ none
      → all_bound params cs ≡ true
      → (all_bound (Dict.set k v params) cs ≡ true)
        × ((x : ℕ × Row P Json) → all_hold (Dict.set k v params) cs x ≡ all_hold params cs x)
  all_hold-set k v params [] fresh b = (refl, λ x. refl)
  all_hold-set k v params (c ∷ cs) fresh b =
      let here : bound_in params (param_of c) ≡ true = ground (arith, b) in
      let there : all_bound params cs ≡ true = ground (arith, b) in
      let one = holds_at-set k v params (param_of c) c fresh here in
      let rest = all_hold-set k v params cs fresh there in
      (rw (one.0, rest.0) refl, λ x. rw (one.1 x, rest.1 x) refl)

  all_hold-snoc :
      (params : Params) (cs : List Clause) (c : Clause) (x : ℕ × Row P Json)
      → all_hold params (cs ++ c ∷ []) x ≡ all_hold params cs x && holds params c x
  all_hold-snoc params [] c x = ground arith
  all_hold-snoc params (d ∷ cs) c x = ground (arith, all_hold-snoc params cs c x)

all_bound-snoc :
    (params : Params) (cs : List Clause) (c : Clause)
    → all_bound params cs ≡ true
    → bound_in params (param_of c) ≡ true
    → all_bound params (cs ++ c ∷ []) ≡ true
all_bound-snoc params [] c b h = rw h
all_bound-snoc params (d ∷ cs) c b h =
    ground (arith, b, all_bound-snoc params cs c (ground (arith, b)) h)

takes_params-set :
    (encodes : String → Bool) (k : String) (v : Param) (params : Params)
    → takes_param encodes v ≡ true
    → takes_params encodes params ≡ true
    → takes_params encodes (Dict.set k v params) ≡ true
unfolding Dict.set
takes_params-set encodes k v [] h t = rw h refl
takes_params-set encodes k v ((j, w) ∷ params) h t = elim (Bool-cases (str_eq j k)) [
  | inl e ↦ ground (arith, e, h, t)
  | inr e ↦ ground (arith, e, t, takes_params-set encodes k v params h (ground (arith, t)))
]

module _ {P : Platform} {Json : Type 0} (encodes : String → Bool) where
  -- A query under construction: its parameters are bound, taken by the driver, its limit is `n`,
  -- and it selects the rows that pass `p`.
  pub record Means (q : Where) (n : ℕ) (p : ℕ × Row P Json → Bool) : Type 0 where
    pub bound : all_bound q.params q.clauses ≡ true
    pub taken : takes_params encodes q.params ≡ true
    pub limit : Dict.get "limit" q.params ≡ some (number (pos n))
    pub meaning : (x : ℕ × Row P Json) → all_hold q.params q.clauses x ≡ p x

  pub and_clause-Means :
      (c : Clause) (name : String) (v : Param) (q : Where) (n : ℕ) (p : ℕ × Row P Json → Bool)
      → param_of c ≡ some name
      → Dict.get name q.params ≡ none
      → takes_param encodes v ≡ true
      → Means q n p
      → Means (and_clause c name v q) n (λ x. p x && test c v x)
  and_clause-Means c name v q n p named fresh fits m = record {
    taken = takes_params-set encodes name v q.params fits m.taken;
    bound =
        all_bound-snoc (Dict.set name v q.params) q.clauses c
          (all_hold-set {P = P} {Json = Json} name v q.params q.clauses fresh m.bound).0
          (rw (named, found) refl);
    limit = get-set-bound name "limit" v (number (pos n)) q.params fresh m.limit;
    meaning = λ x.
        all_hold-snoc (Dict.set name v q.params) q.clauses c x
        ∙ rw ((all_hold-set name v q.params q.clauses fresh m.bound).1 x, m.meaning x, named, found)
            refl;
  }
    where
      found : Dict.get name (Dict.set name v q.params) ≡ some v
      found = Dict.get-set name name v q.params ∙ rw (eq_refl name) refl
