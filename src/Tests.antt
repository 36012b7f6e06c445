-- ===== src/Tests.antt =====
-- Examples: each theorem about the code at a concrete input.
mod Access
mod Names
mod Creation
mod Certificates
mod Rotations
mod Orders
mod Accounts
mod Mails
mod Syncs
mod Queries
mod Addresses
