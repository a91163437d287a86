-- ===== src/Tests.antt =====
-- Runs of the services at concrete inputs, and the theorems applied to them.
mod World
mod Runs
mod Retried
mod Requests
mod Rows
mod Httpx
mod Crypto
mod Config
mod Server
mod Gateways
