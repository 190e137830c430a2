-- ===== src/Clients/Construction/Tests.antt =====
-- The construction of clients over a concrete client-go, whose clients are what they were made of.
use resolution.Prelude.{ℕ, String, ◌≡◌, refl, none, some, ltb, ok, err, ◌=?◌, if◌then◌else◌}
use resolution.Prelude.Int.{pos}
use resolution.Clients.Construction.{RestConfig, Store, RestLibrary, load}
use resolution.Clients.Construction.Group
use resolution.Clients.Construction.Set.{burst_required}
use resolution.Clients.Construction.Set
use resolution.Clients.Construction.Described.{answer, clients}

abbrev Config : Type 0
Config = RestConfig ℕ String String

-- An HTTP client is the user agent of its transport.
abbrev client_go : RestLibrary ℕ String String String (Config × String) (Config × String)
client_go = record {
  positive = λ q. ltb 0 q;
  codecs = "json";
  default_user_agent = "program/v1";
  http_client_for = λ v. ok v.user_agent;
  rest_client_for = λ v h. ok (v, h);
  discovery_client_for = λ v h. ok (v, h);
  new_discovery_client = λ r. r;
}

abbrev config : Config
config = record {
  qps = 5;
  burst = pos 10;
  rate_limiter = none;
  group_version = none;
  api_path = "";
  negotiated_serializer = none;
  user_agent = "";
  others = "https://host";
}

abbrev one_config : Store ℕ String String
one_config = record {
  next = 1;
  configs = λ i. if i =? 0 then some config else none;
  next_limiter = 7;
  limiters = λ l. none;
}

-- A client set for a configuration without a user agent sends none: its HTTP client is made before the
-- default is set.
no_user_agent :
    clients client_go config 7
    ≡ ok (record {
      discovery_client = (record config { rate_limiter = some 7 }, "");
      resolution_v1alpha1 = record {
        rest_client = (Group.defaulted client_go (record config { rate_limiter = some 7 }), "");
      };
    })
no_user_agent = refl

abbrev without_burst : Store ℕ String String
without_burst = record one_config {
  configs = λ i. if i =? 0 then some (record config { burst = pos 0 }) else none;
}

refused : answer (Set.new_for_config client_go 0 without_burst) ≡ some (err burst_required)
unfolding Set.new_for_config Set.new_for_config_and_client Set.set_rate_limiter load
refused = refl
