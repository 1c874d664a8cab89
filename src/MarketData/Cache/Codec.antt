-- ===== src/MarketData/Cache/Codec.antt =====
-- The stored payload: what is read is a series for the query, and what was written is read back.
use portfolio_analytics_api.Decimal.Sign.{eq_refl, IsFinite}
use portfolio_analytics_api.Decimal.{Decimal, not_above_zero, is_finite}
use portfolio_analytics_api.MarketData.Series.{
  IsAscending-IsFresh, sort_by-IsSeries, IsSeries, seen_date, IsFresh, bar_le, IsQuoted,
}
use portfolio_analytics_api.Common.Sort.{sort_by_of_IsSorted, IsSorted, IsAscending, sort_by}
use portfolio_analytics_api.MarketData.Json.{
  to_list-from_list, null, float, boolean, get_field, string, to_list, Json,
}
use portfolio_analytics_api.Domain.Models.{PriceBar, Date}
use portfolio_analytics_api.Common.Text.{text_eq_refl, text, Text}
use portfolio_analytics_api.MarketData.Cache.{
  serialize_price_bars, bars_eq, payload_of, some_bars, int, object, is_for_query, read_json, array,
  price_field, deserialize_price_bars, read_array, require, read_date, entry, read_object, in_order,
  read_bars, Formats,
}
use portfolio_analytics_api.Common.{
  All-imp, sym, ap, map, some, ◌&&◌, leb, not, ◌||◌, ◌≢◌, All, ◌≡◌, List, arith, ◌∷◌, [], false,
  true, refl,
}
use portfolio_analytics_api.Errors.{raise_if-ok, value_error, >>=-eq-ok, raise_if, ok}

module _ (fm : Formats) (symbol : Text) (start_date end_date : Date) where
  read_bars-IsFresh :
      (raws : List Json) (seen : List Date) (bars : List PriceBar)
      → read_bars fm symbol start_date end_date raws seen ≡ ok bars
      → All (IsQuoted symbol start_date end_date) bars × IsFresh seen bars
  unfolding read_bars
  read_bars-IsFresh [] seen [] h = (tt, tt)
  read_bars-IsFresh [] seen (b ∷ bars) h = absurd (cc)
  read_bars-IsFresh (raw ∷ raws) seen bars h =
      let (fields, _, h1) = >>=-eq-ok (read_object fm symbol start_date end_date raw) _ h in
      let (raw_date, _, h2) =
        >>=-eq-ok (entry fm symbol start_date end_date (text "date") fields) _ h1 in
      let (session, _, h3) = >>=-eq-ok (read_date fm symbol start_date end_date raw_date) _ h2 in
      let (raw_close, _, h4) =
        >>=-eq-ok (entry fm symbol start_date end_date (text "adjusted_close") fields) _ h3 in
      let (close, _, h5) =
        >>=-eq-ok (require fm symbol start_date end_date (fm.decimal_from_json raw_close)) _ h4 in
      let refused =
        seen_date session seen
        || not (leb start_date session && leb session end_date)
        || not (is_finite close)
        || not_above_zero close in
      let (_, passed, h6) = >>=-eq-ok (raise_if refused value_error) _ h5 in
      let (rest, more, made) =
        >>=-eq-ok (read_bars fm symbol start_date end_date raws (session ∷ seen)) _ h6 in
      let fine : refused ≡ false = raise_if-ok refused value_error passed in
      let bar : PriceBar = record { symbol = symbol; date = session; adjusted_close = close } in
      let same : bar ∷ rest ≡ bars = ground arith in
      let (q, f) = read_bars-IsFresh raws (session ∷ seen) rest more in
      let quoted : IsQuoted symbol start_date end_date bar = record {
        of_symbol = refl;
        not_early = ground arith;
        not_late = ground arith;
        priced = ground arith;
      } in
      let fresh : seen_date session seen ≡ false = ground arith in
      rw (← same) ((quoted, q), (fresh, f))

  in_order-sorted :
      (bars series : List PriceBar)
      → in_order fm symbol start_date end_date bars ≡ ok series
      → sort_by bar_le bars ≡ series
  in_order-sorted bars series h = ground arith

  read_bars-ne_nil :
      (raw : Json) (raws : List Json) (bars : List PriceBar)
      → read_bars fm symbol start_date end_date (raw ∷ raws) [] ≡ ok bars
      → bars ≢ []
  unfolding read_bars
  read_bars-ne_nil raw raws bars h e = ground arith

  some_bars-ne_nil :
      (js raws : List Json) (bars : List PriceBar)
      → some_bars fm symbol start_date end_date js ≡ ok raws
      → read_bars fm symbol start_date end_date raws [] ≡ ok bars
      → bars ≢ []
  some_bars-ne_nil [] raws bars h k = absurd (cc)
  some_bars-ne_nil (j ∷ js) raws bars h k =
      let same : j ∷ js ≡ raws = ground arith in read_bars-ne_nil j js bars (rw same k)

  read_array-ne_nil :
      (j : Json) (raws : List Json) (bars : List PriceBar)
      → read_array fm symbol start_date end_date j ≡ ok raws
      → read_bars fm symbol start_date end_date raws [] ≡ ok bars
      → bars ≢ []
  read_array-ne_nil (array items) raws bars h k = some_bars-ne_nil (to_list items) raws bars h k
  read_array-ne_nil (object _) raws bars h k = absurd (cc)
  read_array-ne_nil null raws bars h k = absurd (cc)
  read_array-ne_nil (boolean _) raws bars h k = absurd (cc)
  read_array-ne_nil (int _) raws bars h k = absurd (cc)
  read_array-ne_nil (float _) raws bars h k = absurd (cc)
  read_array-ne_nil (string _) raws bars h k = absurd (cc)

  -- Whatever the cache server returns for a query, what is accepted of it is a series for that
  -- query: a corrupt, foreign or malformed entry is never served.
  pub deserialize_price_bars-IsSeries :
      (raw : Text) (series : List PriceBar)
      → deserialize_price_bars fm symbol start_date end_date raw ≡ ok series
      → IsSeries symbol start_date end_date series
  unfolding deserialize_price_bars
  deserialize_price_bars-IsSeries raw series h =
      let (payload, _, h1) =
        >>=-eq-ok (read_json fm symbol start_date end_date (fm.load raw)) _ h in
      let (_, _, h2) =
        >>=-eq-ok (raise_if (not (is_for_query fm symbol start_date end_date payload)) value_error)
          _ h1 in
      let (raws, listed, h3) =
        >>=-eq-ok (read_array fm symbol start_date end_date (get_field (text "bars") payload)) _
          h2 in
      let (bars, collected, h4) =
        >>=-eq-ok (read_bars fm symbol start_date end_date raws []) _ h3 in
      let (q, f) = read_bars-IsFresh raws [] bars collected in
      rw (← in_order-sorted bars series h4) (
        sort_by-IsSeries symbol start_date end_date bars
          (read_array-ne_nil (get_field (text "bars") payload) raws bars listed collected) q f)

  -- The laws of the standard library that a round trip needs.
  pub record IsFaithful : Type 0 where
    pub load_dump :
        (bars : List PriceBar)
        → fm.load (fm.dump (payload_of fm symbol start_date end_date bars))
          ≡ some (payload_of fm symbol start_date end_date bars)
    pub date_read : (d : Date) → fm.date_from_iso (fm.iso_date d) ≡ some d
    pub decimal_read :
        (d : Decimal) → IsFinite d → fm.decimal_from_json (string (fm.decimal_text d)) ≡ some d

  IsQuoted-accepted :
      (bar : PriceBar) (seen : List Date)
      → IsQuoted symbol start_date end_date bar
      → seen_date bar.date seen ≡ false
      → (seen_date bar.date seen
          || not (leb start_date bar.date && leb bar.date end_date)
          || not (is_finite bar.adjusted_close)
          || not_above_zero bar.adjusted_close)
        ≡ false
  IsQuoted-accepted bar seen q f =
      let early = q.not_early in
      let late = q.not_late in let finite = q.priced.0 in let above = q.priced.1 in ground arith

  bars_eq_refl :
      (bars : List PriceBar)
      → All (IsQuoted symbol start_date end_date) bars
      → bars_eq bars bars ≡ true
  bars_eq_refl [] q = refl
  bars_eq_refl (bar ∷ bars) q =
      rw (text_eq_refl bar.symbol, eq_refl bar.adjusted_close q.0.priced.0, bars_eq_refl bars q.1)
        (ground arith)

  IsAscending-IsSorted : (bars : List PriceBar) → IsAscending bar_le bars → IsSorted bar_le bars
  IsAscending-IsSorted [] a = tt
  IsAscending-IsSorted (bar ∷ bars) a = (
    All-imp (λ b. (bar_le bar b ≡ true) × (bar_le b bar ≡ false)) (λ b. bar_le bar b ≡ true)
        (λ b h. h.0) bars a.0,
    IsAscending-IsSorted bars a.1,
  )

  module _ (laws : IsFaithful) where
    read_bars-written :
        (bars : List PriceBar) (seen : List Date)
        → All (IsQuoted symbol start_date end_date) bars
        → IsFresh seen bars
        → read_bars fm symbol start_date end_date (map (price_field fm) bars) seen ≡ ok bars
    unfolding read_bars
    read_bars-written [] seen q f = refl
    read_bars-written (bar ∷ bars) seen q f =
        let rest = read_bars-written bars (bar.date ∷ seen) q.1 f.1 in
        let day = laws.date_read bar.date in
        let close = laws.decimal_read bar.adjusted_close q.0.priced.0 in
        let same = q.0.of_symbol in
        rw (day, close, IsQuoted-accepted bar seen q.0 f.0, rest)
          (ap (λ s. ok (record bar { symbol = s } ∷ bars)) (sym same))

    in_order-IsSorted :
        (bars : List PriceBar)
        → All (IsQuoted symbol start_date end_date) bars
        → IsAscending bar_le bars
        → in_order fm symbol start_date end_date bars ≡ ok bars
    in_order-IsSorted bars q a =
        let sorted : sort_by bar_le bars ≡ bars =
          sort_by_of_IsSorted bar_le bars (IsAscending-IsSorted bars a) in
        rw (sorted, bars_eq_refl bars q) refl

    -- A series that was written for a query is read back for it, bar by bar, provided that the
    -- texts of JSON documents, dates and decimals can be read back.
    pub deserialize-serialize_price_bars :
        (series : List PriceBar)
        → IsSeries symbol start_date end_date series
        → deserialize_price_bars fm symbol start_date end_date
            (serialize_price_bars fm symbol start_date end_date series)
          ≡ ok series
    unfolding deserialize_price_bars serialize_price_bars
    deserialize-serialize_price_bars [] h = absurd (h.some_bars refl)
    deserialize-serialize_price_bars (bar ∷ bars) h =
        let document = laws.load_dump (bar ∷ bars) in
        let fresh = IsAscending-IsFresh (bar ∷ bars) h.ascending in
        let collected = read_bars-written (bar ∷ bars) [] h.quoted fresh in
        let ordered = in_order-IsSorted (bar ∷ bars) h.quoted h.ascending in
        rw
          (
            document,
            text_eq_refl symbol,
            text_eq_refl (fm.iso_date start_date),
            text_eq_refl (fm.iso_date end_date),
            to_list-from_list (map (price_field fm) bars),
            collected,
          )
          ordered
