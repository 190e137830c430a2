-- ===== src/Informers/Access.antt =====
-- pkg/client/informers/externalversions/resolution/interface.go and its v1alpha1/interface.go: what leads
-- from a factory to the informer of requests. The factory is passed along beside these.
use resolution.Prelude.{String, Option}

module _ (O : Type 0) where
  -- group
  pub record Group : Type 0 where
    pub namespace : String
    pub tweak_list_options : Option (O → O)

  -- version
  pub record Version : Type 0 where
    pub namespace : String
    pub tweak_list_options : Option (O → O)

  -- resolutionRequestInformer
  pub record ResolutionRequestInformer : Type 0 where
    pub namespace : String
    pub tweak_list_options : Option (O → O)

module _ {O : Type 0} where
  -- New of the group, and of the version
  abbrev pub new_group : String → Option (O → O) → Group O
  new_group namespace tweak = record { namespace = namespace; tweak_list_options = tweak }

  abbrev pub new_version : String → Option (O → O) → Version O
  new_version namespace tweak = record { namespace = namespace; tweak_list_options = tweak }

  abbrev pub v1alpha1 : Group O → Version O
  v1alpha1 g = new_version g.namespace g.tweak_list_options

  abbrev pub resolution_requests : Version O → ResolutionRequestInformer O
  resolution_requests v = record {
    namespace = v.namespace;
    tweak_list_options = v.tweak_list_options;
  }
