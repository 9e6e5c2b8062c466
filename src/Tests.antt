-- ===== src/Tests.antt =====
-- The properties at concrete inputs: one database with a lead, drafts, events and a cycle, and the
-- tables of the OAuth provider.
mod Drafts
mod Crm
mod Members
mod Board
mod Provider
mod Passes
mod Signin
mod Retries
mod Consents
mod Onboarding
