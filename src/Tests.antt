-- ===== src/Tests.antt =====
-- The theorems at concrete inputs: one conversation between two users, and the bytes of two packets.
mod Data
mod ClientData
mod ServerCases
mod StoreCases
mod ClientCases
mod ExchangeCases
mod WindowCases
mod StartCases
mod RunCases
