-- ===== src/Monitoring/Health.antt =====
-- monitoring.py: the class `HealthChecker`. What a request to the API and a query of the database give
-- is an argument: a result, or an exception.
use oanda_trader.Base.{
  Bool, true, false, not, ◌&&◌, Option, none, some, if◌then◌else◌, Float, Num, lt,
}

-- The answers of the check of the API.
pub data ApiHealth : Type 0 where
  connected missing_account failed : ApiHealth

-- The outcome of the request: whether the response has account data, or `none` for an exception.
abbrev pub check_api_connectivity : Option Bool → Bool × ApiHealth
check_api_connectivity none = (false, failed)
check_api_connectivity (some has_account) =
    if has_account then (true, connected) else (false, missing_account)

-- `none` stands for an exception in the query.
abbrev pub check_database_connectivity {ℓ} : {A : Type ℓ} → Option A → Bool
check_database_connectivity none = false
check_database_connectivity (some metrics) = true

module _ ⦃F : Float⦄ where
  abbrev pub check_balance_sufficient : Num → Num → Bool
  check_balance_sufficient balance min_balance = not (lt balance min_balance)

  pub record HealthReport : Type 0 where
    pub api : Bool × ApiHealth
    pub database : Bool
    pub balance : Bool
    pub overall : Bool

  unfoldable pub perform_full_health_check :
      {A : Type 0} → Option Bool → Option A → Num → Num → HealthReport
  perform_full_health_check response metrics balance min_balance =
      let api = check_api_connectivity response in
      let database = check_database_connectivity metrics in
      let sufficient = check_balance_sufficient balance min_balance in
      record {
        api = api;
        database = database;
        balance = sufficient;
        overall = api.0 && (database && sufficient);
      }
