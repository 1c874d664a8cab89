-- ===== src/MarketData/Json.antt =====
-- A JSON document as Python's `json` returns it. A number with a fraction or an exponent is a
-- float, whose exact value is a decimal.
use portfolio_analytics_api.Decimal.{finite, eq, Decimal}
use portfolio_analytics_api.Common.Int.{pos, eq_ℤ, leb_ℤ, ℤ}
use portfolio_analytics_api.Common.Text.{text_eq, Text}
use portfolio_analytics_api.Common.{
  ap, ◌≡◌, refl, ◌==◌, if◌then◌else◌, ℕ, List, Bool, ◌∷◌, [], false, true,
}

mutual
  pub data Json : Type 0 where
    null : Json
    boolean : Bool → Json
    int : ℤ → Json
    float : Decimal → Json
    string : Text → Json
    array : Items → Json
    object : Fields → Json

  pub data Items : Type 0 where
    no_items : Items
    item : Json → Items → Items

  -- The entries of a dictionary.
  pub data Fields : Type 0 where
    end : Fields
    field : Text → Json → Fields → Fields

abbrev pub to_list : Items → List Json
to_list no_items = []
to_list (item j rest) = j ∷ to_list rest

abbrev pub from_list : List Json → Items
from_list [] = no_items
from_list (j ∷ js) = item j (from_list js)

-- `payload.get(name)`, which is `None` where the name is missing.
abbrev pub get_field : Text → Fields → Json
get_field name end = null
get_field name (field n j rest) = if text_eq n name then j else get_field name rest

abbrev pub has_field : Text → Fields → Bool
has_field name end = false
has_field name (field n j rest) = if text_eq n name then true else has_field name rest

-- `value == n`: Python compares numbers of all kinds by their values, `True` as 1.
abbrev pub equals_int : Json → ℕ → Bool
equals_int (boolean true) n = n == 1
equals_int (boolean false) n = n == 0
equals_int (int z) n = eq_ℤ z (pos n)
equals_int (float d) n = eq d (finite (pos n) 0)
equals_int _ n = false

-- `value == text`
abbrev pub equals_text : Json → Text → Bool
equals_text (string s) t = text_eq s t
equals_text _ t = false

-- `isinstance(value, int) and value >= n`, for an n above 1.
abbrev pub int_from : Json → ℕ → Bool
int_from (int z) n = leb_ℤ (pos n) z
int_from _ n = false

-- A list or a dictionary has no hash, so that looking it up in a set raises `TypeError`.
abbrev pub unhashable : Json → Bool
unhashable (array _) = true
unhashable (object _) = true
unhashable _ = false

pub to_list-from_list : (js : List Json) → to_list (from_list js) ≡ js
to_list-from_list [] = refl
to_list-from_list (j ∷ js) = ap (λ k. j ∷ k) (to_list-from_list js)
