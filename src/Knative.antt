-- ===== src/Knative.antt =====
-- What the program takes from knative.dev/pkg (vendor/knative.dev/pkg). `Manager` is the manager of the
-- conditions of a batch resource (apis/condition_set.go, apis/condition_types.go), an interface with
-- its documented laws; `Outcome` is how a reconciler answers the work queue (controller).
pub mod Manager
pub mod Outcome
pub mod Batch
