-- ===== src/System.antt =====
-- The parts together: a client submits a request (pkg/resource), a resolver's controller resolves it
-- (pkg/resolver/framework), the core controller completes it (pkg/reconciler/resolutionrequest), and
-- the client reads it.
pub mod RoundTrip
pub mod Races
pub mod Protocol
mod Tests
