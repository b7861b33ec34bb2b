-- ===== src/Clouds.antt =====
-- The clients of the clouds (internal/clients/http/azure, ec2 and gcp) above the SDKs, whose answers are
-- parameters. A client that is created for each request and its error are one parameter.
pub mod Actions
pub mod Azure
pub mod Ec2
pub mod Gcp
