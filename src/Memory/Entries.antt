-- ===== src/Memory/Entries.antt =====
-- Lookups and values of the dictionaries of the store after an insertion.
use portfolio_analytics_api.Memory.{entry_values, put_entry, get_entry}
use portfolio_analytics_api.Domain.Models.{Uuid}
use portfolio_analytics_api.Common.{◌++◌, ◌≡◌, List, arith, ◌∷◌, [], some, none, refl}

module _ {V : Type 0} where
  pub get_entry-put_entry :
      (k : Uuid) (v : V) (d : List (Uuid × V)) → get_entry k (put_entry k v d) ≡ some v
  get_entry-put_entry k v [] = ground arith
  get_entry-put_entry k v ((j, w) ∷ d) = ground (arith, get_entry-put_entry k v d)

  pub entry_values-put_entry :
      (k : Uuid) (v : V) (d : List (Uuid × V))
      → get_entry k d ≡ none
      → entry_values (put_entry k v d) ≡ entry_values d ++ v ∷ []
  entry_values-put_entry k v [] h = refl
  entry_values-put_entry k v ((j, w) ∷ d) h = ground (arith, entry_values-put_entry k v d)
