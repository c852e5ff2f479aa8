-- ===== src/Tests.antt =====
-- Concrete inputs, and the theorems applied at them.
mod Addresses
mod Links
mod Tables
mod Protocols
mod Discoveries
mod Logins
mod Frames
mod Dataplanes
mod Servers
mod Attributes
mod Accounts
mod Commands
mod Dictionaries
