-- ===== src/Yaml.antt =====
-- The part of yaml-cpp that the program reads, as an interface: a node's kind with its contents,
-- `operator[]` with a text key, conversions of a scalar's text, and `Dump`.
use kubeforward.Base.{String, Bool, Option, List, string_eq}
use kubeforward.Base.Int.{ℤ}

-- `YAML::NodeType` with what a node of each type holds. An undefined node converts to `false`.
pub data View (Node : Type 0) : Type 0 where
  undefined null : View Node
  scalar : String → View Node
  sequence : List Node → View Node
  mapping : List (Node × Node) → View Node

pub record Yaml : Type 1 where
  pub Node : Type 0
  pub view : Node → View Node
  -- `node[key]` of a mapping: an undefined node if the key is missing.
  pub child : Node → String → Node
  -- `as<int>()` and `as<bool>()` of a scalar's text; `none` is a `BadConversion`.
  pub to_int : String → Option ℤ
  pub to_bool : String → Option Bool
  pub dump : Node → String
