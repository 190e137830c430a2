-- ===== src/Common/Errors.antt =====
-- pkg/common/errors.go. A non-nil Go `error` is a value of `Error`; `nil` is `none` of `Option Error`.
use Prim.Native.String.{◌++◌}
use resolution.Prelude.{String, ◌≡◌, refl, Option, none, some, quote}
use resolution.Common.{reason_resolution_failed}

-- What the Kubernetes API answers beside a message; the code asks for the first three.
pub data ApiReason : Type 0 where
  not_found already_exists conflict other_reason : ApiReason

pub data Error : Type 0 where
  -- errors.New, fmt.Errorf without `%w`, and an error of a library, by its message.
  plain : String → Error
  -- fmt.Errorf(prefix + "%w", err)
  wrapped : String → Error → Error
  -- an error of the Kubernetes API
  api : ApiReason → String → Error
  -- context.DeadlineExceeded
  deadline_exceeded : Error
  -- *Error: a reason beside the original error
  with_reason : String → Error → Error
  -- *ErrorInvalidResourceKey: Key, Original
  invalid_resource_key : String → Error → Error
  -- *ErrorInvalidRequest: ResolutionRequestKey, Message
  invalid_request : String → String → Error
  -- *ErrorGettingResource: ResolverName, Key, Original
  getting_resource : String → String → Error → Error
  -- *ErrorUpdatingRequest: ResolutionRequestKey, Original
  updating_request : String → Error → Error

-- err.Error()
unfoldable pub message : Error → String
message (plain m) = m
message (wrapped prefix e) = prefix ++ message e
message (api r m) = m
message deadline_exceeded = "context deadline exceeded"
message (with_reason r e) = message e
message (invalid_resource_key key e) = "invalid resource key " ++ (quote key ++ (": " ++ message e))
message (invalid_request key m) = "invalid resource request " ++ (quote key ++ (": " ++ m))
message (getting_resource name key e) =
    "error getting " ++ (quote name ++ (" " ++ (quote key ++ (": " ++ message e))))
message (updating_request key e) =
    "error updating resource request " ++ (quote key ++ (" with data: " ++ message e))

-- errors.Unwrap(err)
unfoldable pub unwrap : Error → Option Error
unwrap (wrapped prefix e) = some e
unwrap (with_reason r e) = some e
unwrap (invalid_resource_key key e) = some e
unwrap (getting_resource name key e) = some e
unwrap (updating_request key e) = some e
unwrap _ = none

unfoldable pub new_error : String → Error → Error
new_error reason e = with_reason reason e

unfoldable pub error_request_in_progress : Error
unfolding new_error
error_request_in_progress =
    new_error "RequestInProgress" (plain "Resource request is still in-progress")

-- ReasonError: the type assertion `err.(*Error)` looks at the outermost error only.
unfoldable pub reason_error : Error → String × Error
reason_error (with_reason reason original) = (reason, original)
reason_error e = (reason_resolution_failed, e)

-- The first reason in the chain of wrapped errors, as `errors.As` would find it.
unfoldable pub reason_in_chain : Error → Option String
reason_in_chain (with_reason reason original) = some reason
reason_in_chain (wrapped prefix e) = reason_in_chain e
reason_in_chain (invalid_resource_key key e) = reason_in_chain e
reason_in_chain (getting_resource name key e) = reason_in_chain e
reason_in_chain (updating_request key e) = reason_in_chain e
reason_in_chain _ = none

-- Extracting the reason never changes the message that is recorded.
pub message-reason_error : (e : Error) → message (reason_error e).1 ≡ message e
unfolding message reason_error
message-reason_error (with_reason r e) = refl
message-reason_error _ = refl

-- What `NewError` puts together `ReasonError` takes apart.
reason_error-new_error : (r : String) (e : Error) → reason_error (new_error r e) ≡ (r, e)
unfolding reason_error new_error
reason_error-new_error r e = refl
