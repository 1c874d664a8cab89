-- ===== src/Examples/Formats.antt =====
-- Concrete texts for dates, decimals and the stored documents: a document is written as the moves
-- of a stack machine, which reads it back.
use portfolio_analytics_api.Decimal.Sign.{IsFinite}
use portfolio_analytics_api.MarketData.Cache.Hits.{IsUp}
use portfolio_analytics_api.MarketData.Cache.Codec.{IsFaithful}
use Prim.Native.Nat.{zero, suc}
use portfolio_analytics_api.Common.Int.{negsuc, pos}
use portfolio_analytics_api.MarketData.Cache.{CacheServer, payload_of, price_field, Formats}
use portfolio_analytics_api.Decimal.{nan, infinite, is_finite, finite, Decimal}
use portfolio_analytics_api.Domain.Models.{PriceBar, Date}
use portfolio_analytics_api.Common.Text.{text_eq→eq, text_eq_refl, text_eq, Text}
use portfolio_analytics_api.Common.{
  sym, Bool-cases, inr, inl, ap, if◌then◌else◌, true, ◌∙◌, map, suc, ◌≡◌, Option, ℕ, List, ◌∷◌, [],
  some, none, refl,
}
use portfolio_analytics_api.MarketData.Json.{
  end, Fields, from_list, no_items, Items, int, field, object, item, string, array, Json, null,
  boolean, float,
}

abbrev written_string : Text → Text → Text
written_string [] k = 0 ∷ k
written_string (c ∷ s) k = written_string s (suc (suc (suc (suc (suc (suc c))))) ∷ k)

-- The scalars and containers that a payload uses.
mutual
  pub written : Json → Text → Text
  written (string s) k = written_string s k
  written (int n) k = 5 ∷ k
  written (array items) k = written_items items k
  written (object fields) k = written_fields fields k
  written null k = k
  written (boolean b) k = k
  written (float d) k = k

  pub written_items : Items → Text → Text
  written_items no_items k = 1 ∷ k
  written_items (item j items) k = written_items items (written j (2 ∷ k))

  pub written_fields : Fields → Text → Text
  written_fields end k = 3 ∷ k
  written_fields (field name j fields) k =
      written_fields fields (written_string name (written j (4 ∷ k)))

abbrev push_item : List Json → List Json
push_item (j ∷ array items ∷ st) = array (item j items) ∷ st
push_item st = st

abbrev push_field : List Json → List Json
push_field (j ∷ string name ∷ object fields ∷ st) = object (field name j fields) ∷ st
push_field st = st

abbrev push_char : ℕ → List Json → List Json
push_char c (string s ∷ st) = string (c ∷ s) ∷ st
push_char c st = st

abbrev step : ℕ → List Json → List Json
step zero st = string [] ∷ st
step (suc zero) st = array no_items ∷ st
step (suc (suc zero)) st = push_item st
step (suc (suc (suc zero))) st = object end ∷ st
step (suc (suc (suc (suc zero)))) st = push_field st
step (suc (suc (suc (suc (suc zero))))) st = int (pos 1) ∷ st
step (suc (suc (suc (suc (suc (suc c)))))) st = push_char c st

abbrev run : Text → List Json → List Json
run [] st = st
run (c ∷ k) st = run k (step c st)

abbrev top : List Json → Option Json
top [] = none
top (j ∷ st) = some j

abbrev lookup_text : Text → List (Text × Text) → Option Text
lookup_text key [] = none
lookup_text key ((k, v) ∷ rest) = if text_eq k key then some v else lookup_text key rest

abbrev pub only_date : Text → Option Date
only_date (d ∷ []) = some d
only_date _ = none

abbrev decimal_digits : Decimal → Text
decimal_digits (finite (pos n) s) = 0 ∷ n ∷ s ∷ []
decimal_digits (finite (negsuc n) s) = 1 ∷ n ∷ s ∷ []
decimal_digits _ = []

abbrev digits_decimal : Json → Option Decimal
digits_decimal (string (zero ∷ n ∷ s ∷ [])) = some (finite (pos n) s)
digits_decimal (string (suc _ ∷ n ∷ s ∷ [])) = some (finite (negsuc n) s)
digits_decimal _ = none

abbrev pub plain_formats : Formats
plain_formats = record {
  iso_date = λ d. d ∷ [];
  date_from_iso = only_date;
  decimal_text = decimal_digits;
  decimal_from_json = digits_decimal;
  dump = λ j. written j [];
  load = λ s. top (run s []);
}

run-string : (s k : Text) (st : List Json) → run (written_string s k) st ≡ run k (string s ∷ st)
run-string [] k st = refl
run-string (c ∷ s) k st = rw (run-string s (suc (suc (suc (suc (suc (suc c))))) ∷ k) st) refl

run-price_field :
    (bar : PriceBar) (k : Text) (st : List Json)
    → run (written (price_field plain_formats bar) k) st
      ≡ run k (price_field plain_formats bar ∷ st)
unfolding written
run-price_field bar k st = rw (run-string (decimal_digits bar.adjusted_close) _ _) refl

run-price_fields :
    (bars : List PriceBar) (k : Text) (st : List Json)
    → run (written_items (from_list (map (price_field plain_formats) bars)) k) st
      ≡ run k (array (from_list (map (price_field plain_formats) bars)) ∷ st)
unfolding written
run-price_fields [] k st = refl
run-price_fields (bar ∷ bars) k st = run-price_fields bars _ st ∙ run-price_field bar (2 ∷ k) _

run-payload :
    (symbol : Text) (start_date end_date : Date) (bars : List PriceBar)
    → run (written (payload_of plain_formats symbol start_date end_date bars) []) []
      ≡ payload_of plain_formats symbol start_date end_date bars ∷ []
unfolding written
run-payload symbol start_date end_date bars =
    rw (run-string symbol _ _, run-price_fields bars _ _) refl

decimal_digits-read :
    (d : Decimal) → IsFinite d → digits_decimal (string (decimal_digits d)) ≡ some d
unfolding is_finite
decimal_digits-read (finite (pos n) s) h = refl
decimal_digits-read (finite (negsuc n) s) h = refl
decimal_digits-read (infinite _) h = absurd (cc)
decimal_digits-read nan h = absurd (cc)

pub plain_formats-IsFaithful :
    (symbol : Text) (start_date end_date : Date)
    → IsFaithful plain_formats symbol start_date end_date
plain_formats-IsFaithful symbol start_date end_date = record {
  load_dump = λ bars. ap top (run-payload symbol start_date end_date bars);
  date_read = λ d. refl;
  decimal_read = decimal_digits-read;
}

-- A server that keeps every entry, whatever its time to live.
abbrev pub plain_server : CacheServer (List (Text × Text))
plain_server = record {
  read_entry = λ key s. (some (lookup_text key s), s);
  write_entry = λ key value ttl s. (true, (key, value) ∷ s);
}

pub plain_server-IsUp : IsUp plain_server
plain_server-IsUp = record {
  written = λ key value ttl s. refl;
  read_written = λ key value ttl s. rw (text_eq_refl key) refl;
  read_other = λ key other value ttl s apart. elim (Bool-cases (text_eq other key)) [
    | inl same ↦ absurd (apart (sym (text_eq→eq other key same)))
    | inr different ↦ rw different refl
  ];
}
