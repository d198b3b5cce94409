-- ===== src/Upstream.antt =====
-- internal/upstream/github: the token rotation (token_provider.go) and the client (client.go).
pub mod Tokens
pub mod Client
