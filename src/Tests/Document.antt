-- ===== src/Tests/Document.antt =====
-- YAML documents as trees, an instance of the interface of yaml-cpp for the tests.
use kubeforward.Base.{
  ℕ, ◌+◌, ◌-◌, ◌*◌, String, true, false, Option, none, some, List, [], ◌∷◌, ◌==◌, string_eq,
  if◌then◌else◌,
}
use kubeforward.Base.Int.{ℤ, pos}
use kubeforward.Yaml.{Yaml, undefined, scalar, sequence, mapping}
use kubeforward.Loader.Ip.{codes, is_digit}

mutual
  pub data Tree : Type 0 where
    missing : Tree
    text : String → Tree
    items : Trees → Tree
    fields : Fields → Tree

  pub data Trees : Type 0 where
    nil : Trees
    cons : Tree → Trees → Trees

  pub data Fields : Type 0 where
    end : Fields
    field : String → Tree → Fields → Fields

abbrev pub list_of : Trees → List Tree
list_of nil = []
list_of (cons x xs) = x ∷ list_of xs

abbrev pub pairs_of : Fields → List (Tree × Tree)
pairs_of end = []
pairs_of (field k v fs) = (text k, v) ∷ pairs_of fs

abbrev pub find : String → Fields → Tree
find key end = missing
find key (field k v fs) = let rest = find key fs in if k == key then v else rest

abbrev digits : ℕ → List ℕ → Option ℤ
digits n [] = some (pos n)
digits n (c ∷ cs) = let rest = digits (n * 10 + (c - b'0')) cs in if is_digit c then rest else none

abbrev pub document : Yaml
document = record {
  Node = Tree;
  view = λ t. elim t [
    | missing ↦ undefined
    | text s ↦ scalar s
    | items xs ↦ sequence (list_of xs)
    | fields fs ↦ mapping (pairs_of fs)
  ];
  child = λ t key. elim t [
    | missing ↦ missing
    | text s ↦ missing
    | items xs ↦ missing
    | fields fs ↦ find key fs
  ];
  to_int = λ s. digits 0 (codes s);
  to_bool = λ s. if s == "true" then some true else if s == "false" then some false else none;
  dump = λ t. elim t [ missing ↦ "" | text s ↦ s | items xs ↦ "[...]" | fields fs ↦ "{...}" ];
}
