-- ===== src/Tests.antt =====
-- The theorems at concrete inputs.
mod Passkeys
mod World
mod Ceremonies
mod Routes
mod Chain
mod Built
mod Flows
mod Delegated
mod Registrations
mod Access
mod Accounts
mod Pages
