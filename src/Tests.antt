-- ===== src/Tests.antt =====
-- Tests on concrete inputs, and the theorems at work on them.
mod Cbor
mod Data
mod Runs
mod Addresses
mod Records
mod Tokens
mod Issued
mod Signed
mod Refused
mod Hex
mod Vectors
mod Receiver
mod Deployed
mod Corpora
mod Units
