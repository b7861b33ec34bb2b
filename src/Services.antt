-- ===== src/Services.antt =====
-- The HTTP handlers (internal/services) of reservations and public keys.
pub mod Render
pub mod Requests
pub mod Aws
pub mod Azure
pub mod Gcp
pub mod Noop
pub mod Reservations
pub mod Pubkeys
pub mod Contracts
pub mod Creation
pub mod Acceptance
pub mod Launching
pub mod Success
pub mod Lookups
pub mod Uploads
pub mod Responses
