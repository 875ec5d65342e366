-- ===== src/Tests.antt =====
-- The theorems at concrete inputs: a small market, and the history of one purchase in it.
mod Market
mod Purchase
mod Pure
mod Histories
mod Replay
mod Authority
mod Settlement
mod Envelope
