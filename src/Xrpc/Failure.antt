-- ===== src/Xrpc/Failure.antt =====
-- src/xrpc.rs: the error that a failed call answers with. A path that no route claims, and a call under
-- another verb, are from src/xrpc/route.rs.
use manapds.Prelude.{Bool, Option, Str, [], false, if◌then◌else◌, none, some, true, ℕ, ◌++◌}
use manapds.Prelude.Bytes.{codes, strip_prefix}
use manapds.Prelude.Result.{ok, err}
use manapds.Syntax.Nsid
use manapds.Prelude.Trim.{trim_end_matches}
use manapds.Prelude.Int.{ℤ}
use manapds.Xrpc.Limit.{Reading}
use manapds.Xrpc.Headers.{HeaderMap, write}
use manapds.Xrpc.Status
use manapds.Xrpc.Status.{
  Status, internal_server_error, method_not_implemented, authentication_required, code, description,
}

pub record Error : Type 0 where
  pub status : Status
  pub named : Option Str
  pub message : Option Str
  pub limit : Option Reading

unfoldable pub new : Status → Error
new status = record { status = status; named = none; message = none; limit = none }

unfoldable pub saying : Str → Error → Error
saying text e = record e { message = some text }

unfoldable pub called : Str → Error → Error
called text e = record e { named = some text }

unfoldable pub limited : Reading → Error → Error
limited reading e = record e { limit = some reading }

unfoldable pub invalid_request : Str → Error
unfolding new saying
invalid_request text = saying text (new Status.Status.invalid_request)

unfoldable pub auth_required : Str → Error
unfolding new saying
auth_required text = saying text (new authentication_required)

unfoldable pub internal : Str → Error
unfolding new saying
internal text = saying text (new internal_server_error)

abbrev pub or_else : Option Str → Str → Str
or_else none text = text
or_else (some said) text = said

-- `Error::name`
unfoldable pub name_of : Error → Str
name_of e = or_else e.named (Status.name e.status)

abbrev is_internal : Status → Bool
is_internal internal_server_error = true
is_internal _ = false

-- `Error::message`
unfoldable pub message_of : Error → Str
message_of e =
    if is_internal e.status then description e.status else or_else e.message (description e.status)

-- What a failed call answers: the number, the two texts of its body, and the headers of a rate limit.
pub record Answer : Type 0 where
  pub number : ℕ
  pub error : Str
  pub message : Str
  pub headers : HeaderMap

abbrev limit_headers : (Str → Option Str) → ℤ → Option Reading → HeaderMap
limit_headers from_str now none = []
limit_headers from_str now (some reading) = write from_str now reading []

unfoldable pub into_response : (Str → Option Str) → ℤ → Error → Answer
unfolding name_of message_of code
into_response from_str now e = record {
  number = code e.status;
  error = name_of e;
  message = message_of e;
  headers = limit_headers from_str now e.limit;
}

-- `mismatch`: the call of a method under another verb than its own.
unfoldable pub mismatch : Str → Str → Error
unfolding invalid_request
mismatch method expected =
    invalid_request
      (codes "Incorrect HTTP method (" ++ (method ++ (codes ") expected " ++ expected)))

-- `fallback`: `none` is a bare 404.
unfoldable pub fallback : Str → Option Error
unfolding invalid_request new
fallback path = elim (strip_prefix (codes "/xrpc/") path) [
  | none ↦ none
  | some rest ↦ elim (Nsid.parse (trim_end_matches b'/' rest)) [
    | err _ ↦ some (invalid_request (codes "invalid xrpc path"))
    | ok _ ↦ some (new method_not_implemented)
  ]
]
