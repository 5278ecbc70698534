-- ===== src/Store/Nodes.antt =====
-- What state_store.cpp uses of yaml-cpp beyond reading: nodes that are built, written and loaded.
use kubeforward.Base.{◌≡◌, String, Bool, Option, none, some, List}
use kubeforward.Base.Int.{ℤ}
use kubeforward.Base.Map.{lookup}
use kubeforward.Yaml.{Yaml, undefined, scalar, sequence, mapping}
use kubeforward.Loader.Load.{Parsed, parsed}

pub record Nodes : Type 1 where
  pub yaml : Yaml
  open yaml use {Node, view, child, to_int, to_bool}
  -- What `as<std::string>()` gives of a null node; `none` is a `BadConversion`.
  pub null_text : Option String
  -- The node that `operator[]` gives for a missing key.
  pub missing : Node
  pub int_text : ℤ → String
  pub bool_text : Bool → String
  pub of_text : String → Node
  pub of_list : List Node → Node
  -- A mapping with the entries in the order of their assignment.
  pub of_fields : List (String × Node) → Node
  -- The contents of a file, what `operator<<` writes and what `YAML::Load` reads.
  pub Contents : Type 0
  pub empty_contents : Contents
  pub write : Node → Contents
  pub yaml_load : Contents → Parsed Node

-- A node that was built reads as it was built, also after it was written and loaded.
pub record NodesLaws (N : Nodes) : Type 0 where
  pub view_missing : N.yaml.view N.missing ≡ undefined
  pub view_text : (s : String) → N.yaml.view (N.of_text s) ≡ scalar s
  pub view_list : (ns : List N.yaml.Node) → N.yaml.view (N.of_list ns) ≡ sequence ns
  pub view_fields :
      (fs : List (String × N.yaml.Node))
      → (entries : List (N.yaml.Node × N.yaml.Node)) × (N.yaml.view (N.of_fields fs)
          ≡ mapping entries)
  pub child_fields :
      (fs : List (String × N.yaml.Node)) (key : String)
      → N.yaml.child (N.of_fields fs) key ≡ elim (lookup key fs) [ some n ↦ n | none ↦ N.missing ]
  pub int_back : (i : ℤ) → N.yaml.to_int (N.int_text i) ≡ some i
  pub bool_back : (b : Bool) → N.yaml.to_bool (N.bool_text b) ≡ some b
  pub load_back :
      (fs : List (String × N.yaml.Node))
      → N.yaml_load (N.write (N.of_fields fs)) ≡ parsed (N.of_fields fs)
