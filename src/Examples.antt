-- ===== src/Examples.antt =====
-- Runs on concrete inputs, by the crate whose code they run.
mod Samples
mod Tokens
mod Caching
mod Discovering
mod Oauth
mod Documents
mod Issuing
mod Granting
mod Server
mod Interoperation
