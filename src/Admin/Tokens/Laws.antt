-- ===== src/Admin/Tokens/Laws.antt =====
-- handleCreateToken of internal/adminapi/tokens_handlers.go: what the new token is good for.
use nx_remote_cache.Primitives.{Primitives}
use nx_remote_cache.World.{World}
