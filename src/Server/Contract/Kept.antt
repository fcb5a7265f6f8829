-- ===== src/Server/Contract/Kept.antt =====
-- What the class `Server` keeps of what its comments promise.
use jsonrpc_for_cpp.Server.{Server}
use jsonrpc_for_cpp.Server.Lifecycle.Sound.{Sound}
