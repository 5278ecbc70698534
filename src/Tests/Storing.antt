-- ===== src/Tests/Storing.antt =====
-- Nodes that are built as trees, and a state that is saved and loaded.
use Prim.Native.Char.{code}
use kubeforward.Base.{
  ℕ, zero, suc, ◌≡◌, refl, ap, String, Bool, true, false, Option, none, some, List, [], ◌∷◌,
  string_eq, if◌then◌else◌, eqb, arith,
}
use kubeforward.Base.Int.{ℤ, pos, negsuc}
use kubeforward.Base.Map.{lookup}
use kubeforward.Yaml.{Yaml, sequence}
use kubeforward.Loader.Load.{parsed}
use kubeforward.Store.Nodes.{Nodes, NodesLaws}
use kubeforward.Store.Serialize.{serialize_state}
use kubeforward.Store.Parse.{parse_state_node}
use kubeforward.Store.RoundTrip.{parse_state_node-serialize_state}
use kubeforward.Store.Files.{
  Saving, Locking, Loading, Disk, open_and_lock_state_file, write_state, save_locked, save_state,
  load_state,
}
use kubeforward.Store.Files.Atomic.{Replaces, save_state-Replaces}
use kubeforward.Store.Files.Durable.{loaded, load_state-save_state}
use kubeforward.Tests.Document.{
  Tree, missing, text, items, fields, Trees, nil, cons, Fields, end, field, list_of, pairs_of, find,
  document,
}
use kubeforward.Tests.Running.{running}

-- A number as a sign and as many marks.
abbrev marks : ℕ → String
marks zero = ""
marks (suc n) = String.◌∷◌ "I" (marks n)

abbrev count : String → ℕ
count String.[] = 0
count (String.◌∷◌ c s) = suc (count s)

count-marks : (n : ℕ) → count (marks n) ≡ n
count-marks zero = refl
count-marks (suc n) = ap suc (count-marks n)

abbrev write_int : ℤ → String
write_int (pos n) = String.◌∷◌ "+" (marks n)
write_int (negsuc n) = String.◌∷◌ "-" (marks n)

abbrev read_int : String → Option ℤ
read_int String.[] = none
read_int (String.◌∷◌ sign s) =
    if eqb (code sign) b'+' then some (pos (count s)) else some (negsuc (count s))

read-write_int : (i : ℤ) → read_int (write_int i) ≡ some i
read-write_int (pos n) = ap (λ m. some (pos m)) (count-marks n)
read-write_int (negsuc n) = ap (λ m. some (negsuc m)) (count-marks n)

abbrev write_bool : Bool → String
write_bool true = "true"
write_bool false = "false"

abbrev trees : List Tree → Trees
trees [] = nil
trees (t ∷ ts) = cons t (trees ts)

abbrev fields_of : List (String × Tree) → Fields
fields_of [] = end
fields_of ((key, t) ∷ fs) = field key t (fields_of fs)

list_of-trees : (ts : List Tree) → list_of (trees ts) ≡ ts
list_of-trees [] = refl
list_of-trees (t ∷ ts) = ap (◌∷◌ t) (list_of-trees ts)

find-fields_of :
    (fs : List (String × Tree)) (key : String)
    → find key (fields_of fs) ≡ elim (lookup key fs) [ some n ↦ n | none ↦ missing ]
unfolding lookup
find-fields_of [] key = refl
find-fields_of ((k, t) ∷ fs) key = let ih = find-fields_of fs key in ground arith

abbrev reader : Yaml
reader = record document { to_int = read_int }

abbrev pub trees_as_nodes : Nodes
trees_as_nodes = record {
  yaml = reader;
  null_text = none;
  missing = missing;
  int_text = write_int;
  bool_text = write_bool;
  of_text = text;
  of_list = λ ns. items (trees ns);
  of_fields = λ fs. fields (fields_of fs);
  Contents = Tree;
  empty_contents = missing;
  write = λ n. n;
  yaml_load = parsed;
}

bool_back : (b : Bool) → reader.to_bool (write_bool b) ≡ some b
unfolding string_eq
bool_back true = refl
bool_back false = refl

pub trees_as_nodes-NodesLaws : NodesLaws trees_as_nodes
trees_as_nodes-NodesLaws = record {
  view_missing = refl;
  view_text = λ s. refl;
  view_list = λ ns. ap sequence (list_of-trees ns);
  view_fields = λ fs. (pairs_of (fields_of fs), refl);
  child_fields = find-fields_of;
  int_back = read-write_int;
  bool_back = bool_back;
  load_back = λ fs. refl;
}

parse_state_node-serialize_state_example :
    parse_state_node trees_as_nodes (serialize_state trees_as_nodes running) ≡ (running, [])
parse_state_node-serialize_state_example =
    parse_state_node-serialize_state trees_as_nodes trees_as_nodes-NodesLaws running

abbrev pub directory : String → String
directory path = "/tmp"

abbrev pub blank : Disk trees_as_nodes directory
blank path = none

abbrev lockable : Locking
lockable = record { open_lock = none; flock = none }

abbrev pub saving_well : Saving Tree
saving_well = record {
  create_directories = none;
  locking = lockable;
  pid = 7;
  open_temporary = true;
  written = text "sess" ∷ [];
  good = true;
  rename = none;
  remove = true;
}

abbrev pub loading_well : Loading
loading_well = record { parent_exists = some true; locking = lockable; open_input = true }

save_state-Replaces_example :
    Replaces trees_as_nodes directory "/tmp/state.yaml"
      (serialize_state trees_as_nodes running)
      blank
      (save_state trees_as_nodes directory saving_well "/tmp/state.yaml" running blank)
save_state-Replaces_example =
    save_state-Replaces trees_as_nodes directory "/tmp/state.yaml" running saving_well blank

pub saves :
    (save_state trees_as_nodes directory saving_well "/tmp/state.yaml" running blank).error ≡ none
unfolding save_state save_locked write_state open_and_lock_state_file
saves = refl

load_state-save_state_example :
    (load_state trees_as_nodes directory loading_well "/tmp/state.yaml"
      (save_state trees_as_nodes directory saving_well "/tmp/state.yaml" running blank).disk).0
    ≡ loaded running
load_state-save_state_example =
    load_state-save_state trees_as_nodes trees_as_nodes-NodesLaws directory "/tmp/state.yaml"
      running saving_well loading_well blank
      (record { parent = refl; lock_opens = refl; locks = refl; opens = refl }) saves
