-- ===== src/Tests.antt =====
-- The theorems at concrete inputs, and runs of the model.
mod Answers
mod Samples
mod Lists
mod Packets
mod Sessions
mod Cleanups
mod Commands
mod Rounds
mod Broker
mod Subscribers
mod Cli
mod Client
mod Producers
mod Setups
mod Transfers
mod Exits
