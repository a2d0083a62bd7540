-- ===== src/Lib.antt =====
-- Verification library of the authzoo repository.
--
-- The repository has three crates. authzoo checks JSON web tokens against configured roles;
-- authzoo-oauth issues tokens, checks OAuth authorization requests and resolves their clients;
-- authzoo-server is what servers share: shutdown, TLS files, traces and logs.
--
-- authzoo. A `TokenValidator` (authzoo/src/validator.rs) holds roles by name. For a role it reads
-- the token's header, checks the algorithm, gets a key (authzoo/src/keys.rs), has jsonwebtoken
-- verify the token, and checks the claims (authzoo/src/claims.rs). A role without a key has it
-- discovered (authzoo/src/discovery.rs): the issuer's OpenID configuration names a key set, from
-- which a key is chosen, by way of a global cache.
--   Config.antt     config.rs and error.rs: roles, requirements, `validate`, `matches_value`
--   Claims.antt     claims.rs: `require_claims`
--   Jwks.antt       discovery.rs: `select_jwk_for_token`, `jwk_matches_algorithm`
--   KeyCache.antt   discovery.rs: `JwksKeyCache`
--   World.antt      the state and the outside of the two files below
--   Discovery.antt  discovery.rs: `discovery_decoding_key`, `cached_jwks_key`, `cache_jwks_key`
--   Keys.antt       keys.rs: `resolving_decoding_key`, `decoding_key_for_algorithm`
--   Validator.antt  validator.rs
--   Threads.antt    the same calls in steps, for threads that share the key cache
-- authzoo-oauth. `validate_authorization_request` (authzoo-oauth/src/protocol.rs) checks a request
-- against a client, which `ClientMetadataService` (authzoo-oauth/src/client_metadata.rs) resolves
-- from a document that it fetches and caches. A `TokenIssuer` (authzoo-oauth/src/token.rs) mints
-- tokens for the scopes of a request that was accepted, which a role of authzoo can check by the
-- key that the issuer publishes. authzoo-oauth/src/discovery.rs advertises all this.
--   Client.antt     client_metadata.rs: `allows_redirect`, `loopback_without_port`, `valid_redirect`
--   Metadata.antt   client_metadata.rs: `parse_document`, `metadata_url`, `cache_ttl`, `public_ip`
--   Metadata/Resolution.antt  client_metadata.rs: what `resolve_metadata` fetches and remembers
--   Metadata/Resolution/Service.antt  client_metadata.rs: `resolve`, `resolve_metadata` in steps
--   Metadata/Logs.antt  client_metadata.rs: `log_client_id`
--   Protocol.antt   protocol.rs
--   Token.antt      token.rs: `SigningKey`, the structs and what they serialize to
--   Token/Minting.antt  token.rs: `mint_access_token_until`, `mint_access_token`, `mint_id_token`
--   Openid.antt     discovery.rs: `OpenidConfiguration`
--   Interop.antt    tokens of token.rs, checked by authzoo/src/validator.rs
--   Grants.antt     from a client's identifier to its access token
-- authzoo-server.
--   Shutdown.antt   shutdown.rs: `drain`, as the state of its future from poll to poll
--   Shutdown/Signals.antt  shutdown.rs: `Signals`
--   Tls.antt        tls.rs: `file_paths`; Tls/Loading.antt: `load`
--   Telemetry.antt  telemetry.rs: `deserialize_optional`, `instrument`, `trace_request`
--   Telemetry/Export.antt  telemetry.rs: `provider`, `shutdown`
--   Http.antt       http.rs: `request`
-- Tasks.antt has the steps of threads and their schedules; Jwt.antt and Url.antt name what the
-- code uses of jsonwebtoken, serde_json and url; Common.antt has the shared helpers, Examples.antt
-- runs on concrete inputs.
--
-- A text is the list of its Unicode scalar values. `Result` has the errors as values and a panic
-- as a third outcome. A stateful computation takes the state and returns the next one, also on an
-- error. Third-party crates are parameters: records of functions, without laws but for `Chrono`,
-- which says how chrono's times go on. The clock, files, DNS and HTTP answer by the number of the
-- call, so that no two answers need agree; in Shutdown.antt, what `drain` waits for answers poll
-- by poll. An `anyhow` error is a constructor with the values of its outermost message.
--
-- No function needs fuel: the loops recur on their lists. The one loop of the code that is not
-- over a list, in `evict_lru`, pops the queue that it recurs on. `usize` and `Instant` sums are
-- taken not to overflow, nor is a time before the epoch; the bounds that the code states
-- (capacities, the size of a document) are in the model. Paths are those of Unix.
--
-- Two components are shared by callers that run at once: the global key cache and the cache of
-- client metadata. There a call is a task of Tasks.antt, whose steps are the sections under the
-- lock, the calls to the outside, and code that shares nothing; a schedule says which call takes
-- the next step. A panic under the lock of the key cache poisons it; tokio's lock, of the other
-- cache, knows no poison. Discovery.antt, Keys.antt and Validator.antt have the calls of authzoo
-- as a whole, for a caller that has the state to itself. A future that is dropped before it is
-- finished is not modelled.
--
-- Not modelled: log lines but those of Http.antt, Metadata/Logs.antt, Telemetry/Export.antt and
-- the signal that `wait` names; the branches of shutdown.rs for systems that are not Unix;
-- `cache_document` of client_metadata.rs, which is compiled for tests only; deserialization, which
-- is serde's.
pub mod Common
pub mod Jwt
pub mod Config
pub mod Claims
pub mod Jwks
pub mod KeyCache
pub mod World
pub mod Discovery
pub mod Keys
pub mod Validator
pub mod Tasks
pub mod Threads
pub mod Url
pub mod Client
pub mod Protocol
pub mod Metadata
pub mod Token
pub mod Openid
pub mod Interop
pub mod Grants
pub mod Shutdown
pub mod Tls
pub mod Telemetry
pub mod Http
pub mod Examples
