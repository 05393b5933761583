-- ===== src/Access.antt =====
-- Who may come in: failed logins (app_http.go), the number of connections (limit_listener.go) and
-- the headers that tell where a request comes from (trusted_proxy.go).
pub mod LoginLimiter
pub mod LimitListener
pub mod TrustedProxy
