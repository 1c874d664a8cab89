-- ===== src/MarketData/Cache/Hits.antt =====
-- Two calls of the cached provider with a server that is up: what the first call fetches, the second
-- one finds.
use portfolio_analytics_api.MarketData.Retries.{retryable}
use portfolio_analytics_api.MarketData.Series.{IsSeries}
use portfolio_analytics_api.MarketData.Cache.Codec.{deserialize-serialize_price_bars, IsFaithful}
use portfolio_analytics_api.Services.Analytics.{MarketDataResult, Provider}
use portfolio_analytics_api.Domain.Models.{PriceBar, Date}
use portfolio_analytics_api.Common.Text.{strip, upper, Text}
use portfolio_analytics_api.MarketData.Cache.{
  cached_price_bars, serialize_price_bars, cache_key, fresh_ttl, stale_key, store_payload, Options,
  Formats, CacheServer,
}
use portfolio_analytics_api.Common.{
  List, false, ◌∙◌, ◌++◌, ◌≢◌, ◌≡◌, ℕ, arith, ◌∷◌, [], some, none, true, refl,
}
use portfolio_analytics_api.Errors.{err, Error, ok}

-- What a server that is up promises.
pub record IsUp {S : Type 0} (server : CacheServer S) : Type 0 where
  pub written : (key value : Text) (ttl : ℕ) (s : S) → (server.write_entry key value ttl s).0 ≡ true
  pub read_written :
      (key value : Text) (ttl : ℕ) (s : S)
      → (server.read_entry key (server.write_entry key value ttl s).1).0 ≡ some (some value)
  pub read_other :
      (key other value : Text) (ttl : ℕ) (s : S)
      → key ≢ other
      → (server.read_entry key (server.write_entry other value ttl s).1).0
        ≡ (server.read_entry key s).0

append_apart : (key : Text) (c : ℕ) (rest : Text) → key ≢ key ++ c ∷ rest
append_apart [] c rest e = absurd (cc)
append_apart (k ∷ key) c rest e = append_apart key c rest (ground arith)

module _ {S : Type 0} (server : CacheServer S) (up : IsUp server) (fm : Formats) (o : Options)
    (today : Date) (start_date end_date : Date) where
  -- After both writes, both keys hold the payload.
  store_payload-read :
      (provider : Provider) (key payload : Text) (s : S)
      → let t = store_payload server fm o today provider start_date end_date key payload s in
        ((server.read_entry key t).0 ≡ some (some payload))
        × ((server.read_entry (stale_key key) t).0 ≡ some (some payload))
  unfolding store_payload
  store_payload-read provider key payload s =
      let ttl = fresh_ttl server fm o today provider start_date end_date in
      let s1 = (server.write_entry key payload ttl s).1 in
      let wrote : (server.write_entry key payload ttl s).0 ≡ true = up.written key payload ttl s in
      rw (store_payload, wrote)
        (
          up.read_other key (stale_key key) payload o.stale_ttl_seconds s1 (append_apart key _ _)
              ∙ up.read_written key payload ttl s,
          up.read_written (stale_key key) payload o.stale_ttl_seconds s1,
        )

  module _ (symbol : Text) (laws : IsFaithful fm (upper (strip symbol)) start_date end_date) where
    abbrev query_key : Text
    query_key = cache_key fm o (upper (strip symbol)) start_date end_date

    -- A first call that finds nothing and fetches a series leaves it under both keys.
    pub record IsFetch (provider : Provider) (s : S) (result : MarketDataResult) : Type 0 where
      pub missing : (server.read_entry query_key s).0 ≡ some none
      pub answered : provider (upper (strip symbol)) start_date end_date ≡ ok result
      pub series : IsSeries (upper (strip symbol)) start_date end_date result.price_bars

    cached_price_bars-stored :
        (provider : Provider) (s : S) (result : MarketDataResult)
        → IsFetch provider s result
        → (cached_price_bars server fm o today provider start_date end_date symbol s).1
          ≡ store_payload server fm o today provider start_date end_date query_key
              (serialize_price_bars fm (upper (strip symbol)) start_date end_date result.price_bars)
              (server.read_entry query_key s).1
    unfolding cached_price_bars
    cached_price_bars-stored provider s result h =
        let missed = h.missing in
        let answer = h.answered in rw (cached_price_bars, missed, answer) refl

    cached_price_bars-decoded :
        (provider : Provider) (t : S) (bars : List PriceBar)
        → IsSeries (upper (strip symbol)) start_date end_date bars
        → (server.read_entry query_key t).0
          ≡ some (some (serialize_price_bars fm (upper (strip symbol)) start_date end_date bars))
        → (cached_price_bars server fm o today provider start_date end_date symbol t).0
          ≡ ok (record { price_bars = bars; stale = false })
    unfolding cached_price_bars
    cached_price_bars-decoded provider t bars q h =
        let read =
          deserialize-serialize_price_bars fm (upper (strip symbol)) start_date end_date laws bars
            q in
        rw (cached_price_bars, h, read) refl

    cached_price_bars-outage :
        (provider : Provider) (t : S) (bars : List PriceBar) (e : Error)
        → IsSeries (upper (strip symbol)) start_date end_date bars
        → (server.read_entry query_key t).0 ≡ some none
        → (server.read_entry (stale_key query_key) (server.read_entry query_key t).1).0
          ≡ some (some (serialize_price_bars fm (upper (strip symbol)) start_date end_date bars))
        → provider (upper (strip symbol)) start_date end_date ≡ err e
        → retryable e ≡ true
        → (cached_price_bars server fm o today provider start_date end_date symbol t).0
          ≡ ok (record { price_bars = bars; stale = true })
    unfolding cached_price_bars
    cached_price_bars-outage provider t bars e q missed kept failed again =
        let read =
          deserialize-serialize_price_bars fm (upper (strip symbol)) start_date end_date laws bars
            q in
        rw (cached_price_bars, missed, failed, again, kept, read) refl

    module _ (provider : Provider) (s : S) (result : MarketDataResult)
        (first : IsFetch provider s result) where
      -- The state that the first call leaves.
      abbrev first_state : S
      first_state = (cached_price_bars server fm o today provider start_date end_date symbol s).1

      -- A call that finds nothing and fetches a series leaves it in the cache: with a server that
      -- is up, and texts that can be read back, the next call for the query returns that series,
      -- not stale, whatever the provider would answer by then.
      pub cached_price_bars-twice :
          (later : Provider)
          → (cached_price_bars server fm o today later start_date end_date symbol first_state).0
            ≡ ok (record { price_bars = result.price_bars; stale = false })
      cached_price_bars-twice later =
          let payload =
            serialize_price_bars fm (upper (strip symbol)) start_date end_date result.price_bars in
          let kept =
            store_payload-read provider query_key payload (server.read_entry query_key s).1 in
          cached_price_bars-decoded later first_state result.price_bars first.series
            (rw (cached_price_bars-stored provider s result first) kept.0)

      -- After such a call, let the fresh entry expire while the stale one is kept: if the provider
      -- then raises a retryable error, the call returns the series of the first one, marked stale.
      pub cached_price_bars-stale :
          (later : Provider) (t : S) (e : Error)
          → (server.read_entry query_key t).0 ≡ some none
          → (server.read_entry (stale_key query_key) (server.read_entry query_key t).1).0
            ≡ (server.read_entry (stale_key query_key) first_state).0
          → later (upper (strip symbol)) start_date end_date ≡ err e
          → retryable e ≡ true
          → (cached_price_bars server fm o today later start_date end_date symbol t).0
            ≡ ok (record { price_bars = result.price_bars; stale = true })
      cached_price_bars-stale later t e expired same failed again =
          let payload =
            serialize_price_bars fm (upper (strip symbol)) start_date end_date result.price_bars in
          let kept =
            store_payload-read provider query_key payload (server.read_entry query_key s).1 in
          cached_price_bars-outage later t result.price_bars e first.series expired
            (same ∙ rw (cached_price_bars-stored provider s result first) kept.1) failed again
