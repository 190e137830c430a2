-- ===== src/Common.antt =====
-- pkg/common: the constants that resolvers and their clients share (labels.go, annotations.go,
-- messages.go, statuses.go), and in the children the errors (errors.go) and the context (context.go).
pub mod Errors
pub mod Context
mod Tests
use Prim.Native.String.{String}

abbrev pub label_key_resolver_type : String
label_key_resolver_type = "resolution.tekton.dev/type"

abbrev pub annotation_key_content_type : String
annotation_key_content_type = "content-type"

abbrev pub message_waiting_for_resolver : String
message_waiting_for_resolver = "waiting for resolver"

abbrev pub reason_resolution_in_progress : String
reason_resolution_in_progress = "ResolutionInProgress"

abbrev reason_resolution_successful : String
reason_resolution_successful = "ResolutionSuccessful"

abbrev pub reason_resolution_failed : String
reason_resolution_failed = "ResolutionFailed"

abbrev pub reason_resolution_timed_out : String
reason_resolution_timed_out = "ResolutionTimedOut"
