-- ===== src/Clients/Construction/Sharing.antt =====
-- What the clients of a client set share, and which configurations their construction writes.
use resolution.Clients.Construction.Group.{ResolutionV1alpha1Client, set_config_defaults}
use resolution.Clients.Construction.Group
use resolution.Clients.Construction.Set.{Clientset, wants_limiter, burst_required, set_rate_limiter}
use resolution.Clients.Construction.Set
