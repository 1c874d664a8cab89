-- ===== src/MarketData/Cache.antt =====
-- infrastructure/market_data/cache.py: the payload that is stored for a query, and
-- `CachedMarketDataProvider.get_price_bars`. The cache server, the JSON text format, the texts of
-- dates and decimals, the provider and the clock are arguments. What is logged is left out.
use portfolio_analytics_api.MarketData.Retries.{retryable}
use portfolio_analytics_api.Common.Sort.{sort_by}
use portfolio_analytics_api.Services.Analytics.{MarketDataResult, Provider}
use portfolio_analytics_api.Common.Int.{pos}
use portfolio_analytics_api.MarketData.Series.{bar_le, seen_date}
use portfolio_analytics_api.Decimal.{eq, not_above_zero, is_finite, Decimal}
use portfolio_analytics_api.MarketData.Json.{
  from_list, equals_text, get_field, has_field, int, end, equals_int, to_list, field, array, string,
  object, Fields, Json,
}
use portfolio_analytics_api.Common.Text.{is_empty, upper, strip, lower, text_eq, text, Text}
use portfolio_analytics_api.Domain.Models.{PriceBar, Date}
use portfolio_analytics_api.Common.{
  ◌==◌, ◌++◌, ℕ, if◌then◌else◌, false, map, ◌&&◌, ◌||◌, leb, not, Bool, List, Option, ◌∷◌, [], some,
  none, true,
}
pub mod Codec
pub mod Behaviour
pub mod Hits
use portfolio_analytics_api.Errors.{Error, raise_if, value_error, Result, ok, err, ◌>>=◌, ◌>>◌}

-- What the standard library writes and reads: ISO dates, decimals, JSON. `none` stands for the
-- exceptions of reading.
pub record Formats : Type 0 where
  pub iso_date : Date → Text
  pub date_from_iso : Text → Option Date
  pub decimal_text : Decimal → Text
  pub decimal_from_json : Json → Option Decimal
  pub dump : Json → Text
  pub load : Text → Option Json

abbrev pub bar_eq : PriceBar → PriceBar → Bool
bar_eq a b = text_eq a.symbol b.symbol && (a.date == b.date) && eq a.adjusted_close b.adjusted_close

abbrev pub bars_eq : List PriceBar → List PriceBar → Bool
bars_eq [] [] = true
bars_eq (a ∷ xs) (b ∷ ys) = bar_eq a b && bars_eq xs ys
bars_eq _ _ = false

-- The keys stand in the order of `sort_keys=True`.
abbrev pub price_field : Formats → PriceBar → Json
price_field fm bar = object (
    field (text "adjusted_close") (string (fm.decimal_text bar.adjusted_close))
      (field (text "date") (string (fm.iso_date bar.date)) end))

module _ (fm : Formats) (symbol : Text) (start_date end_date : Date) where
  abbrev pub payload_of : List PriceBar → Json
  payload_of bars = object (
      field (text "bars") (array (from_list (map (price_field fm) bars))) (
        field (text "end_date") (string (fm.iso_date end_date)) (
          field (text "schema_version") (int (pos 1)) (
            field (text "start_date") (string (fm.iso_date start_date))
              (field (text "symbol") (string symbol) end)))))

  -- `_serialize_price_bars`
  unfoldable pub serialize_price_bars : List PriceBar → Text
  serialize_price_bars bars = fm.dump (payload_of bars)

  abbrev pub require {ℓ} : {A : Type ℓ} → Option A → Result A
  require none = err value_error
  require (some a) = ok a

  abbrev pub read_date : Json → Result Date
  read_date (string s) = require (fm.date_from_iso s)
  read_date _ = err value_error

  -- `raw_bar[name]`, a `KeyError` where it is missing.
  abbrev pub entry : Text → Fields → Result Json
  entry name fields = do
    raise_if (not (has_field name fields)) value_error
    ok (get_field name fields)

  abbrev pub read_object : Json → Result Fields
  read_object (object fields) = ok fields
  read_object _ = err value_error

  -- The loop over the stored bars.
  unfoldable pub read_bars : List Json → List Date → Result (List PriceBar)
  read_bars [] seen = ok []
  read_bars (raw ∷ raws) seen = do
    fields ← read_object raw
    raw_date ← entry (text "date") fields
    session ← read_date raw_date
    raw_close ← entry (text "adjusted_close") fields
    close ← require (fm.decimal_from_json raw_close)
    raise_if
        (seen_date session seen
          || not (leb start_date session && leb session end_date)
          || not (is_finite close)
          || not_above_zero close)
        value_error
    rest ← read_bars raws (session ∷ seen)
    ok (record { symbol = symbol; date = session; adjusted_close = close } ∷ rest)

  abbrev pub some_bars : List Json → Result (List Json)
  some_bars [] = err value_error
  some_bars (j ∷ js) = ok (j ∷ js)

  abbrev pub read_array : Json → Result (List Json)
  read_array (array raws) = some_bars (to_list raws)
  read_array _ = err value_error

  -- `payload.get(…) != …` of the four keys that name the query.
  abbrev pub is_for_query : Fields → Bool
  is_for_query fields =
      equals_int (get_field (text "schema_version") fields) 1
      && equals_text (get_field (text "symbol") fields) symbol
      && equals_text (get_field (text "start_date") fields) (fm.iso_date start_date)
      && equals_text (get_field (text "end_date") fields) (fm.iso_date end_date)

  -- `tuple(bars) != ordered`, and the sorted bars.
  abbrev pub in_order : List PriceBar → Result (List PriceBar)
  in_order bars =
      if not (bars_eq bars (sort_by bar_le bars)) then err value_error else ok (sort_by bar_le bars)

  abbrev pub read_json : Option Json → Result Fields
  read_json none = err value_error
  read_json (some j) = read_object j

  -- `_deserialize_price_bars`
  unfoldable pub deserialize_price_bars : Text → Result (List PriceBar)
  unfolding read_bars
  deserialize_price_bars raw_payload = do
    payload ← read_json (fm.load raw_payload)
    raise_if (not (is_for_query payload)) value_error
    raws ← read_array (get_field (text "bars") payload)
    bars ← read_bars raws []
    in_order bars

-- The options of a `CachedMarketDataProvider`, normalised.
pub record Options : Type 0 where
  pub provider_name : Text
  pub namespace : Text
  pub mutable_ttl_seconds : ℕ
  pub historical_ttl_seconds : ℕ
  pub stale_ttl_seconds : ℕ

-- The constructor.
unfoldable pub make_options : Text → Text → ℕ → ℕ → ℕ → Result Options
make_options provider_name namespace mutable_ttl historical_ttl stale_ttl = do
  let name = lower (strip provider_name)
  let space = lower (strip namespace)
  raise_if (mutable_ttl == 0 || historical_ttl == 0 || stale_ttl == 0) value_error
  raise_if (is_empty name || is_empty space) value_error
  ok (record {
    provider_name = name;
    namespace = space;
    mutable_ttl_seconds = mutable_ttl;
    historical_ttl_seconds = historical_ttl;
    stale_ttl_seconds = stale_ttl;
  })

-- `_key` and `_stale_key`
unfoldable pub cache_key : Formats → Options → Text → Date → Date → Text
cache_key fm o symbol start_date end_date =
    o.namespace
    ++ text ":v1:"
    ++ o.provider_name
    ++ text ":1d:adjusted-close:"
    ++ symbol
    ++ text ":"
    ++ fm.iso_date start_date
    ++ text ":"
    ++ fm.iso_date end_date

abbrev pub stale_key : Text → Text
stale_key key = key ++ text ":stale"

-- `AsyncCacheStore` over states of a server. `none` and `false` stand for a `RedisError`.
pub record CacheServer (S : Type 0) : Type 0 where
  pub read_entry : Text → S → Option (Option Text) × S
  pub write_entry : Text → Text → ℕ → S → Bool × S

module _ {S : Type 0} (server : CacheServer S) (fm : Formats) (o : Options) (today : Date)
    (provider : Provider) (start_date end_date : Date) where
  -- `except ValueError`
  abbrev pub usable : Result (List PriceBar) → Option (List PriceBar)
  usable (ok bars) = some bars
  usable (err _) = none

  -- `_read_stale` once its entry has been read.
  abbrev pub stale_bars : Text → Option (Option Text) → Option (List PriceBar)
  stale_bars symbol none = none
  stale_bars symbol (some none) = none
  stale_bars symbol (some (some raw)) =
      usable (deserialize_price_bars fm symbol start_date end_date raw)

  abbrev pub or_raise : Option (List PriceBar) → Error → Result MarketDataResult
  or_raise none e = err e
  or_raise (some bars) e = ok (record { price_bars = bars; stale = true })

  -- `except MarketDataRetryableError`
  abbrev pub fall_back : Bool → Text → Text → Error → Bool → S → Result MarketDataResult × S
  fall_back available symbol key e false s = (err e, s)
  fall_back false symbol key e true s = (err e, s)
  fall_back true symbol key e true s =
      let (found, s') = server.read_entry (stale_key key) s in
      (or_raise (stale_bars symbol found) e, s')

  abbrev pub fresh_ttl : ℕ
  fresh_ttl = if leb today end_date then o.mutable_ttl_seconds else o.historical_ttl_seconds

  -- The two writes; the second is left out if the first fails.
  unfoldable pub store_payload : Text → Text → S → S
  store_payload key payload s =
      let (written, s1) = server.write_entry key payload fresh_ttl s in
      elim written [
        | false ↦ s1
        | true ↦ (server.write_entry (stale_key key) payload o.stale_ttl_seconds s1).1
      ]

  -- What follows a miss, a corrupt entry or a failed read.
  abbrev pub after_call :
      Bool → Text → Text → Result MarketDataResult → S → Result MarketDataResult × S
  after_call available symbol key (err e) s = fall_back available symbol key e (retryable e) s
  after_call false symbol key (ok result) s = (ok result, s)
  after_call true symbol key (ok result) s = (
    ok result,
    store_payload key (serialize_price_bars fm symbol start_date end_date result.price_bars) s,
  )

  abbrev pub call_provider : Bool → Text → Text → S → Result MarketDataResult × S
  call_provider available symbol key s =
      after_call available symbol key (provider symbol start_date end_date) s

  -- A hit, or on to the provider.
  abbrev pub after_decode : Text → Text → Option (List PriceBar) → S → Result MarketDataResult × S
  after_decode symbol key (some bars) s = (ok (record { price_bars = bars; stale = false }), s)
  after_decode symbol key none s = call_provider true symbol key s

  -- The entry that was read.
  abbrev pub after_read : Text → Text → Option (Option Text) → S → Result MarketDataResult × S
  after_read symbol key none s = call_provider false symbol key s
  after_read symbol key (some none) s = call_provider true symbol key s
  after_read symbol key (some (some raw)) s =
      after_decode symbol key (usable (deserialize_price_bars fm symbol start_date end_date raw)) s

  -- `get_price_bars`
  unfoldable pub cached_price_bars : Text → S → Result MarketDataResult × S
  unfolding deserialize_price_bars serialize_price_bars store_payload
  cached_price_bars symbol s =
      let normalized = upper (strip symbol) in
      let key = cache_key fm o normalized start_date end_date in
      let (found, s') = server.read_entry key s in after_read normalized key found s'
