-- ===== src/Examples.antt =====
-- The theorems at concrete inputs.
mod Util
mod Files
mod Params
mod SimulateL0
mod Rpc
mod L1Config
mod L1Server
mod Dedispersion
mod Ending
mod Memory
mod Prometheus
