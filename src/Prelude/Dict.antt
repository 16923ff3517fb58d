-- ===== src/Prelude/Dict.antt =====
-- Python's `dict`, which keeps the order in which its keys first came: an association list.
use vfobs.Prelude.{
  ℕ, String, str_eq, eq_iff, ◌≡◌, ◌↔◌, refl, Bool, true, Option, none, some, List, [], ◌∷◌, ◌++◌,
  arith, ◌==◌ as nat_beq, if◌then◌else◌,
}

-- Keys with a Boolean test of equality.
pub record Key {ℓ} (K : Type ℓ) : Type ℓ where
  pub beq : K → K → Bool
  pub beq_iff : (a b : K) → (beq a b ≡ true) ↔ (a ≡ b)

pub nat_beq_iff : (a b : ℕ) → (nat_beq a b ≡ true) ↔ (a ≡ b)
nat_beq_iff a b = ground arith

instance abbrev pub nat_key : Key ℕ
nat_key = record { beq = nat_beq; beq_iff = nat_beq_iff }

instance abbrev pub string_key : Key String
string_key = record { beq = str_eq; beq_iff = eq_iff }

module _ {ℓ} {K V : Type ℓ} ⦃key : Key K⦄ where
  -- `d.get(k)`
  unfoldable pub get : K → List (K × V) → Option V
  get k [] = none
  get k ((j, v) ∷ d) = if key.beq j k then some v else get k d

  -- `d[k] = v`
  unfoldable pub set : K → V → List (K × V) → List (K × V)
  set k v [] = (k, v) ∷ []
  set k v ((j, w) ∷ d) = if key.beq j k then (j, v) ∷ d else (j, w) ∷ set k v d

  pub get-set :
      (k j : K) (v : V) (d : List (K × V))
      → get j (set k v d) ≡ (if key.beq k j then some v else get j d)
  unfolding get set
  get-set k j v [] = refl
  get-set k j v ((i, w) ∷ d) =
      ground (arith, key.beq_iff k j, key.beq_iff i k, key.beq_iff i j, get-set k j v d)

  -- A new key goes to the end.
  pub set_of_get-none :
      (k : K) (v : V) (d : List (K × V)) → get k d ≡ none → set k v d ≡ d ++ (k, v) ∷ []
  unfolding get set
  set_of_get-none k v [] h = refl
  set_of_get-none k v ((i, w) ∷ d) h = ground (arith, set_of_get-none k v d)
