-- ===== src/Examples.antt =====
-- Runs of the models at concrete numbers, and each theorem at an input that meets its conditions.
mod Recovery
mod Volatility
mod Threshold
mod Risk
mod Sizing
mod Trailing
mod Timeframe
mod Pairs
mod Monitoring
mod Validation
mod Analytics
mod Strategies
mod Backtest
mod Database
mod Predictor
mod Sessions
mod Cli
mod Config
mod Usage
