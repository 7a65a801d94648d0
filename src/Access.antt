-- ===== src/Access.antt =====
-- Who may call what: the scopes of API keys (security/apiKeyScopes.ts), the roles (types/index.ts,
-- middleware/rbacGuard.ts) and the proxy that calls the facets (diamond/).
pub mod Scopes
pub mod Unique
pub mod Keys
pub mod Roles
pub mod Proxy
pub mod Catalogue
pub mod Dispatch
pub mod Normal
pub mod Readers
mod Tests
