-- ===== src/MarketData/Cache/Behaviour.antt =====
-- What the cached provider returns: the provider's answers, or series that the server keeps.
use portfolio_analytics_api.MarketData.Cache.Codec.{deserialize_price_bars-IsSeries}
use portfolio_analytics_api.MarketData.Retries.{retryable}
use portfolio_analytics_api.MarketData.Series.{IsSeries}
use portfolio_analytics_api.Domain.Models.{PriceBar, Date}
use portfolio_analytics_api.Common.Text.{strip, upper, Text}
use portfolio_analytics_api.MarketData.Cache.{
  after_decode, after_call, stale_key, usable, cache_key, deserialize_price_bars, stale_bars,
  or_raise, after_read, fall_back, cached_price_bars, Options, Formats, CacheServer,
}
use portfolio_analytics_api.Services.Analytics.{MarketDataResult, Provider}
use portfolio_analytics_api.Common.{
  List, Bool, Option, ◌⊎◌, ◌≡◌, inr, inl, some, none, false, true, refl,
}
use portfolio_analytics_api.Errors.{Error, Result, ok, err}

module _ {S : Type 0} (server : CacheServer S) (fm : Formats) (o : Options) (today : Date)
    (provider : Provider) (start_date end_date : Date) where
  -- The server holds an entry that is read back as the series.
  abbrev pub IsStored : Text → Text → S → List PriceBar → Type 0
  IsStored symbol key s bars =
      (raw : Text) × ((server.read_entry key s).0 ≡ some (some raw))
      × (deserialize_price_bars fm symbol start_date end_date raw ≡ ok bars)

  -- A series that is not the provider's answer: the fresh entry of the query, or, where the
  -- provider has just failed in a way that may be retried, the stale one, marked so.
  abbrev pub IsKept : Text → S → MarketDataResult → Type 0
  IsKept symbol s result =
      let key = cache_key fm o symbol start_date end_date in
      ((result.stale ≡ false) × IsStored symbol key s result.price_bars)
      ⊎ ((result.stale ≡ true)
          × IsStored symbol (stale_key key) (server.read_entry key s).1 result.price_bars
          × ((e : Error) × (provider symbol start_date end_date ≡ err e) × (retryable e ≡ true)))

  -- Where a result or an error may come from.
  abbrev pub IsServed : Text → S → Result MarketDataResult → Type 0
  IsServed symbol s (err e) = provider symbol start_date end_date ≡ err e
  IsServed symbol s (ok result) =
      (provider symbol start_date end_date ≡ ok result)
      ⊎ (IsSeries symbol start_date end_date result.price_bars × IsKept symbol s result)

  -- What is usable of a decoded entry.
  unfoldable IsUsable : Text → Text → S → Option (List PriceBar) → Type 0
  IsUsable symbol key s none = Unit
  IsUsable symbol key s (some bars) =
      IsSeries symbol start_date end_date bars × IsStored symbol key s bars

  usable-IsUsable :
      (symbol key raw : Text) (s : S) (r : Result (List PriceBar))
      → (server.read_entry key s).0 ≡ some (some raw)
      → deserialize_price_bars fm symbol start_date end_date raw ≡ r
      → IsUsable symbol key s (usable server fm o today provider start_date end_date r)
  unfolding IsUsable
  usable-IsUsable symbol key raw s (ok bars) found h =
      (deserialize_price_bars-IsSeries fm symbol start_date end_date raw bars h, (raw, found, h))
  usable-IsUsable symbol key raw s (err e) found h = tt

  stale_bars-IsUsable :
      (symbol key : Text) (s : S) (found : Option (Option Text))
      → (server.read_entry key s).0 ≡ found
      → IsUsable symbol key s
          (stale_bars server fm o today provider start_date end_date symbol found)
  unfolding IsUsable
  stale_bars-IsUsable symbol key s none h = tt
  stale_bars-IsUsable symbol key s (some none) h = tt
  stale_bars-IsUsable symbol key s (some (some raw)) h =
      usable-IsUsable symbol key raw s (deserialize_price_bars fm symbol start_date end_date raw) h
        refl

  module _ (symbol : Text) (s : S) where
    abbrev own_key : Text
    own_key = cache_key fm o symbol start_date end_date

    -- The state after the first read.
    abbrev asked : S
    asked = (server.read_entry own_key s).1

    or_raise-IsServed :
        (e : Error) (found : Option (List PriceBar))
        → IsUsable symbol (stale_key own_key) asked found
        → provider symbol start_date end_date ≡ err e
        → retryable e ≡ true
        → IsServed symbol s (or_raise server fm o today provider start_date end_date found e)
    unfolding IsUsable
    or_raise-IsServed e none u h r = h
    or_raise-IsServed e (some bars) u h r = inr (u.0, inr (refl, u.1, (e, h, r)))

    fall_back-IsServed :
        (available again : Bool) (e : Error)
        → retryable e ≡ again
        → provider symbol start_date end_date ≡ err e
        → IsServed symbol s
            (fall_back server fm o today provider start_date end_date available symbol own_key e
              again asked).0
    fall_back-IsServed available false e r h = h
    fall_back-IsServed false true e r h = h
    fall_back-IsServed true true e r h =
        or_raise-IsServed e _ (stale_bars-IsUsable symbol (stale_key own_key) asked _ refl) h r

    after_call-IsServed :
        (available : Bool) (r : Result MarketDataResult)
        → provider symbol start_date end_date ≡ r
        → IsServed symbol s
            (after_call server fm o today provider start_date end_date available symbol own_key r
              asked).0
    after_call-IsServed available (err e) h = fall_back-IsServed available (retryable e) e refl h
    after_call-IsServed false (ok result) h = inl h
    after_call-IsServed true (ok result) h = inl h

    after_decode-IsServed :
        (found : Option (List PriceBar))
        → IsUsable symbol own_key s found
        → IsServed symbol s
            (after_decode server fm o today provider start_date end_date symbol own_key found
              asked).0
    unfolding IsUsable
    after_decode-IsServed none u = after_call-IsServed true _ refl
    after_decode-IsServed (some bars) u = inr (u.0, inl (refl, u.1))

    after_read-IsServed :
        (found : Option (Option Text))
        → (server.read_entry own_key s).0 ≡ found
        → IsServed symbol s
            (after_read server fm o today provider start_date end_date symbol own_key found asked).0
    after_read-IsServed none h = after_call-IsServed false _ refl
    after_read-IsServed (some none) h = after_call-IsServed true _ refl
    after_read-IsServed (some (some raw)) h =
        after_decode-IsServed _ (usable-IsUsable symbol own_key raw s _ h refl)

  -- Whatever the server holds and whether or not it answers, `get_price_bars` returns the answer
  -- of the provider to the normalised symbol, or a series for the query out of the cache. That
  -- series is what the server's fresh entry for the query reads back as, and is not marked stale;
  -- or it is what the stale entry reads back as, is marked stale, and the provider has raised a
  -- retryable error. An error that is raised is the provider's.
  pub cached_price_bars-IsServed :
      (symbol : Text) (s : S)
      → IsServed
          (upper (strip symbol))
          s
          (cached_price_bars server fm o today provider start_date end_date symbol s).0
  unfolding cached_price_bars
  cached_price_bars-IsServed symbol s = after_read-IsServed (upper (strip symbol)) s _ refl
