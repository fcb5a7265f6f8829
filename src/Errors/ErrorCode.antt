-- ===== src/Errors/ErrorCode.antt =====
-- `enum class ErrorCode : int` of include/jsonrpc/errors.hpp. Any `int` is a value of the type.
use jsonrpc_for_cpp.Prelude.Int.{ℤ, negsuc}

abbrev pub parse_error : ℤ
parse_error = negsuc 32699

abbrev pub invalid_request : ℤ
invalid_request = negsuc 32599

abbrev pub method_not_found : ℤ
method_not_found = negsuc 32600

abbrev pub invalid_params : ℤ
invalid_params = negsuc 32601

abbrev pub internal_error : ℤ
internal_error = negsuc 32602

abbrev pub server_error : ℤ
server_error = negsuc 31999
