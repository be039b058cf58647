-- ===== src/Xrpc/Status.antt =====
-- src/xrpc.rs: the statuses that XRPC has names for.
use manapds.Prelude.{Str, ℕ}
use manapds.Prelude.Bytes.{codes}

pub data Status : Type 0 where
  invalid_request : Status
  authentication_required : Status
  forbidden : Status
  xrpc_not_supported : Status
  not_acceptable : Status
  payload_too_large : Status
  unsupported_media_type : Status
  rate_limit_exceeded : Status
  internal_server_error : Status
  method_not_implemented : Status
  upstream_failure : Status
  not_enough_resources : Status
  upstream_timeout : Status

-- `Status::code`
unfoldable pub code : Status → ℕ
code invalid_request = 400
code authentication_required = 401
code forbidden = 403
code xrpc_not_supported = 404
code not_acceptable = 406
code payload_too_large = 413
code unsupported_media_type = 415
code rate_limit_exceeded = 429
code internal_server_error = 500
code method_not_implemented = 501
code upstream_failure = 502
code not_enough_resources = 503
code upstream_timeout = 504

-- `Status::name`
unfoldable pub name : Status → Str
name invalid_request = codes "InvalidRequest"
name authentication_required = codes "AuthenticationRequired"
name forbidden = codes "Forbidden"
name xrpc_not_supported = codes "XRPCNotSupported"
name not_acceptable = codes "NotAcceptable"
name payload_too_large = codes "PayloadTooLarge"
name unsupported_media_type = codes "UnsupportedMediaType"
name rate_limit_exceeded = codes "RateLimitExceeded"
name internal_server_error = codes "InternalServerError"
name method_not_implemented = codes "MethodNotImplemented"
name upstream_failure = codes "UpstreamFailure"
name not_enough_resources = codes "NotEnoughResources"
name upstream_timeout = codes "UpstreamTimeout"

-- `Status::description`
unfoldable pub description : Status → Str
description invalid_request = codes "Invalid Request"
description authentication_required = codes "Authentication Required"
description forbidden = codes "Forbidden"
description xrpc_not_supported = codes "XRPC Not Supported"
description not_acceptable = codes "Not Acceptable"
description payload_too_large = codes "Payload Too Large"
description unsupported_media_type = codes "Unsupported Media Type"
description rate_limit_exceeded = codes "Rate Limit Exceeded"
description internal_server_error = codes "Internal Server Error"
description method_not_implemented = codes "Method Not Implemented"
description upstream_failure = codes "Upstream Failure"
description not_enough_resources = codes "Not Enough Resources"
description upstream_timeout = codes "Upstream Timeout"
