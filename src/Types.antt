-- ===== src/Types.antt =====
-- include/jsonrpc/types.hpp and include/jsonrpc/impl/types.ipp: requests and responses.
pub mod Request
pub mod Response
