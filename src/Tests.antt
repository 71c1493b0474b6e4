-- ===== src/Tests.antt =====
-- The theorems at concrete inputs, and runs of the definitions.
mod Serializer
mod Blocks
mod Accounts
mod Economy
mod Queues
mod Pool
mod Numbers
mod Ordering
mod Bases
mod Difficulties
