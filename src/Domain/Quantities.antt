-- ===== src/Domain/Quantities.antt =====
-- `dict[str, Decimal]` in insertion order, as holdings.py and valuation.py use it.
use portfolio_analytics_api.Common.{
  ◌≡◌, refl, true, if◌then◌else◌, Option, none, some, List, [], ◌∷◌, arith,
}
use portfolio_analytics_api.Common.Text.{Text, text_eq, text_eq→eq}

abbrev pub Dict {ℓ} : Type ℓ → Type ℓ
Dict V = List (Text × V)

-- Equal texts compare alike with any third one.
pub text_eq-left : (i j k : Text) → text_eq i j ≡ true → text_eq i k ≡ text_eq j k
text_eq-left i j k h = rw (text_eq→eq i j h)

pub text_eq-right : (i j k : Text) → text_eq i j ≡ true → text_eq k i ≡ text_eq k j
text_eq-right i j k h = rw (text_eq→eq i j h)

module _ {ℓ} {V : Type ℓ} where
  -- `d.get(k)`
  abbrev pub lookup : Text → Dict V → Option V
  lookup k [] = none
  lookup k ((j, v) ∷ d) = if text_eq j k then some v else lookup k d

  -- `d.get(k, default)`
  abbrev pub get_or : V → Text → Dict V → V
  get_or default k [] = default
  get_or default k ((j, v) ∷ d) = if text_eq j k then v else get_or default k d

  -- `d[k] = v`
  abbrev pub insert : Text → V → Dict V → Dict V
  insert k v [] = (k, v) ∷ []
  insert k v ((j, w) ∷ d) = if text_eq j k then (j, v) ∷ d else (j, w) ∷ insert k v d

  pub lookup-insert :
      (j k : Text) (v : V) (d : Dict V)
      → lookup j (insert k v d) ≡ (if text_eq k j then some v else lookup j d)
  lookup-insert j k v [] = refl
  lookup-insert j k v ((i, w) ∷ d) =
      ground (arith, text_eq-left i k j, text_eq-right k j i, lookup-insert j k v d)

  pub get_or-insert :
      (x : V) (j k : Text) (v : V) (d : Dict V)
      → get_or x j (insert k v d) ≡ (if text_eq k j then v else get_or x j d)
  get_or-insert x j k v [] = refl
  get_or-insert x j k v ((i, w) ∷ d) =
      ground (arith, text_eq-left i k j, text_eq-right k j i, get_or-insert x j k v d)
