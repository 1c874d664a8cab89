-- ===== src/Domain/Models.antt =====
-- domain/models.py. A UUID is its 128-bit number, whose order is that of its hex form. A date is
-- its day number. An aware datetime is its UTC instant in microseconds, which is all that
-- comparison, equality and `astimezone(UTC).date()` read; a naive one is kept apart.
use portfolio_analytics_api.Common.{ℕ, Bool, true, false, Option, List}
use portfolio_analytics_api.Common.Text.{Text}
use portfolio_analytics_api.Decimal.{Decimal}

abbrev pub Uuid : Type 0
Uuid = ℕ

abbrev pub Date : Type 0
Date = ℕ

pub data TransactionType : Type 0 where
  buy sell deposit withdrawal : TransactionType

pub data DateTime : Type 0 where
  aware naive : ℕ → DateTime

abbrev pub is_naive : DateTime → Bool
is_naive (aware _) = false
is_naive (naive _) = true

-- `value.astimezone(UTC)`; a naive value is refused before this is called.
abbrev pub instant : DateTime → ℕ
instant (aware t) = t
instant (naive t) = t

abbrev pub microseconds_per_day : ℕ
microseconds_per_day = 86_400_000_000

pub record User : Type 0 where
  pub id : Uuid
  pub email : Text
  pub password_hash : Text

pub record PriceBar : Type 0 where
  pub symbol : Text
  pub date : Date
  pub adjusted_close : Decimal

pub record Transaction : Type 0 where
  pub portfolio_id : Uuid
  pub external_id : Text
  pub transaction_type : TransactionType
  pub occurred_at : DateTime
  pub symbol : Option Text
  pub quantity : Option Decimal
  pub unit_price : Option Decimal
  pub cash_amount : Option Decimal
  pub fees : Decimal
  pub id : Uuid
  pub created_at : Option DateTime

pub record Portfolio : Type 0 where
  pub id : Uuid
  pub owner_id : Uuid
  pub name : Text
  pub base_currency : Text
  pub transactions : List Transaction

pub record Position : Type 0 where
  pub symbol : Text
  pub quantity : Decimal

pub record AssetWeight : Type 0 where
  pub symbol : Text
  pub market_value : Decimal
  pub weight : Decimal

pub record PortfolioValuePoint : Type 0 where
  pub date : Date
  pub total_value : Decimal
  pub cash_balance : Decimal
  pub net_external_flow : Decimal

-- A Python float is the bit pattern of its binary64 value; its operations are parameters where
-- code computes with it.
abbrev pub Float : Type 0
Float = ℕ

pub record PortfolioValuation : Type 0 where
  pub points : List PortfolioValuePoint
  pub period_returns : List Float
  pub portfolio_value : Decimal
  pub cash_balance : Decimal
  pub asset_weights : List AssetWeight

pub data RiskLevel : Type 0 where
  low moderate high insufficient_data : RiskLevel

-- The fields that a deployment sets; the policies are constants of the source.
pub record AnalyticsMethodology : Type 0 where
  pub annual_risk_free_rate : Decimal
  pub risk_free_rate_as_of : Date
  pub risk_free_rate_assumption : Text
  pub annualization_periods : ℕ

pub record PortfolioAnalytics : Type 0 where
  pub as_of : Date
  pub simple_return : Option Float
  pub annualized_volatility : Option Float
  pub max_drawdown : Option Float
  pub sharpe_ratio : Option Float
  pub portfolio_value : Decimal
  pub cash_balance : Decimal
  pub asset_weights : List AssetWeight
  pub methodology : AnalyticsMethodology
  pub stale : Bool

pub record PortfolioInsight : Type 0 where
  pub as_of : Date
  pub risk_level : RiskLevel
  pub summary : Text
  pub key_factors : List Text
  pub limitations : List Text
  pub disclaimer : Text
  pub generator : Text
  pub model_name : Option Text
  pub prompt_version : Text
  pub stale : Bool

pub record InsightInput : Type 0 where
  pub as_of : Date
  pub simple_return : Option Float
  pub annualized_volatility : Option Float
  pub max_drawdown : Option Float
  pub sharpe_ratio : Option Float
  pub asset_weights : List AssetWeight
  pub methodology : AnalyticsMethodology
  pub stale : Bool

pub record GeneratedInsight : Type 0 where
  pub summary : Text
  pub additional_limitations : List Text

-- `_snapshot_metrics`, whose dictionary has these keys; dates and decimals stand for their texts.
pub record SnapshotMetrics : Type 0 where
  pub as_of : Date
  pub simple_return : Option Float
  pub annualized_volatility : Option Float
  pub max_drawdown : Option Float
  pub sharpe_ratio : Option Float
  pub asset_weights : List (Text × Decimal)
  pub stale : Bool

pub record AnalysisSnapshot : Type 0 where
  pub id : Uuid
  pub portfolio_id : Uuid
  pub as_of : Date
  pub metrics : SnapshotMetrics
  pub methodology : AnalyticsMethodology
  pub summary : Option Text
  pub generator : Option Text
  pub model_name : Option Text
  pub prompt_version : Option Text
  pub generated_at : DateTime
