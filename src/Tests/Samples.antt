-- ===== src/Tests/Samples.antt =====
-- A document with two environments, the config that it stands for, and a cyclic config.
use kubeforward.Base.{String, Bool, true, none, some, [], ◌∷◌, ◌==◌, string_eq, ◌||◌}
use kubeforward.Base.Int.{pos}
use kubeforward.Config.{
  Config, EnvironmentDefinition, ForwardDefinition, PortMapping, ResourceKind, no_forward, no_port,
  no_guards, no_target_defaults,
}
use kubeforward.Tests.Document.{Tree, text, items, fields, nil, cons, end, field}

abbrev web_forward : Tree
web_forward = fields (
    field "name" (text "web") (
      field "resource" (fields (field "kind" (text "service") (field "name" (text "web") end))) (
        field "ports"
          (items (cons (fields (field "local" (text "8080") (field "remote" (text "80") end))) nil))
          (field "annotations"
            (fields (field "detach" (text "true") (field "team" (text "core") end))) end))))

abbrev pub root : Tree
root = fields (
    field "version" (text "1") (
      field "metadata" (fields (field "project" (text "shop") end)) (
        field "defaults" (fields (field "namespace" (text "shop") end)) (
          field "environments"
            (fields (
              field "dev" (fields (field "forwards" (items (cons web_forward nil)) end)) (
                field "prod"
                  (fields (
                    field "extends" (text "dev")
                      (field "guards" (fields (field "allowProduction" (text "true") end)) end)))
                  end)))
            end))))

abbrev pub web_port : PortMapping
web_port = record no_port { local_port = pos 8080; remote_port = pos 80 }

abbrev pub web : ForwardDefinition
web = record no_forward {
  name = "web";
  resource = record {
    kind = ResourceKind.service;
    name = some "web";
    context = none;
    namespace_override = none;
  };
  ports = web_port ∷ [];
  detach = true;
  annotations = ("team", "core") ∷ [];
}

abbrev pub dev : EnvironmentDefinition
dev = record {
  name = "dev";
  extends = none;
  description = none;
  settings = no_target_defaults;
  guards = no_guards;
  forwards = web ∷ [];
}

abbrev pub prod : EnvironmentDefinition
prod = record dev {
  name = "prod";
  extends = some "dev";
  guards = record { allow_production = true };
  forwards = [];
}

abbrev pub sample : Config
sample = record {
  version = pos 1;
  metadata = record { project = "shop"; owner = none };
  defaults = record no_target_defaults { namespace_name = some "shop" };
  environments = ("dev", dev) ∷ ("prod", prod) ∷ [];
}

-- `left` and `right` extend each other.
abbrev pub extending : String → String → EnvironmentDefinition
extending name parent = record dev { name = name; extends = some parent; forwards = [] }

abbrev pub cyclic : Config
cyclic = record sample {
  environments = ("left", extending "left" "right") ∷ ("right", extending "right" "left") ∷ [];
}

abbrev pub in_cycle : String → Bool
in_cycle name = "left" == name || "right" == name
