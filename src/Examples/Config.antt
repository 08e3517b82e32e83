-- ===== src/Examples/Config.antt =====
-- The settings of config.py in an environment with a live account.
use oanda_trader.Base.{◌≡◌, refl, some}
use oanda_trader.Config

live : Config.min_account_balance (λ name. some "live") ≡ 100
live = refl
