-- ===== src/Server/Auth.antt =====
-- packages/server/src/auth/: who may call a route.
pub mod AdminKeys
pub mod TenantBearer
