-- ===== src/Examples.antt =====
-- Concrete inputs at which the theorems of the library apply.
mod Setting
mod Jobs
mod Requests
mod Clients
mod Streams
mod Tables
mod Backends
mod Catalog
mod Accounts
mod Workers
mod Clouds
mod Amazon
mod Google
mod Uploads
mod Responses
