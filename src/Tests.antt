-- ===== src/Tests.antt =====
-- Runs of the code on concrete inputs, and the theorems at such inputs.
mod Samples
mod Caches
mod Tokens
mod Urls
mod Calls
mod Refreshes
mod Parts
mod Clients
mod Configs
mod Servers
mod Apps
mod Pools
mod Logs
