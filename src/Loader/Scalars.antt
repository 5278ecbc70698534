-- ===== src/Loader/Scalars.antt =====
-- src/config/loader.cpp: optional scalars, string maps, key whitelists and the enums.
use kubeforward.Base.{
  String, ◌<>◌, Bool, true, false, ◌&&◌, ◌||◌, Option, none, some, List, [], ◌∷◌, ◌==◌, contains,
  string_eq, if◌then◌else◌, is_empty,
}
use kubeforward.Base.Int.{ℤ, pos, leb_ℤ}
use kubeforward.Base.Map.{Map, emplace, has_key}
use kubeforward.Config.{ResourceKind, PortProtocol, RestartPolicy}
use kubeforward.Yaml.{Yaml, undefined, scalar, mapping}
use kubeforward.Loader.Errors.{Loaded, ◌>>=◌, ◌>>◌, return, add_error, skip}

abbrev pub is_port_valid : ℤ → Bool
is_port_valid value = leb_ℤ (pos 1) value && leb_ℤ value (pos 65535)

unfoldable pub parse_resource_kind : String → String → Loaded ResourceKind
parse_resource_kind value context =
    if value == "pod"
    then return ResourceKind.pod
    else if value == "deployment"
    then return ResourceKind.deployment
    else if value == "service"
    then return ResourceKind.service
    else if value == "statefulset"
    then return ResourceKind.stateful_set
    else (add_error context ("invalid resource.kind '" <> value <> "'") >> return ResourceKind.pod)

unfoldable pub parse_protocol : String → String → Loaded PortProtocol
parse_protocol value context =
    if is_empty value || value == "tcp"
    then return PortProtocol.tcp
    else if value == "udp"
    then return PortProtocol.udp
    else (add_error context ("invalid protocol '" <> value <> "'") >> return PortProtocol.tcp)

unfoldable pub parse_restart_policy : String → String → Loaded RestartPolicy
parse_restart_policy value context =
    if is_empty value || value == "fail-fast"
    then return RestartPolicy.fail_fast
    else if value == "replace"
    then return RestartPolicy.replace
    else (add_error context ("invalid restartPolicy '" <> value <> "'")
        >> return RestartPolicy.fail_fast)

module _ (Y : Yaml) where
  open Y use {Node, view, to_int, to_bool}

  abbrev pub is_defined : Node → Bool
  is_defined node = elim (view node) [ undefined ↦ false | _ ↦ true ]

  -- The loop of `EnsureAllowedKeys`.
  unfoldable pub check_keys : List (Node × Node) → String → List String → Loaded (Unit {0})
  check_keys [] context allowed = skip
  check_keys ((key, _) ∷ entries) context allowed =
      elim (view key) [
        | scalar name ↦
            if contains allowed name
            then skip
            else add_error context ("unknown key '" <> name <> "'")
        | _ ↦ add_error context "encountered non-string key"
      ]
      >> check_keys entries context allowed

  unfoldable pub ensure_allowed_keys : Node → String → List String → Loaded (Unit {0})
  unfolding check_keys
  ensure_allowed_keys node context allowed = elim (view node) [
    | mapping entries ↦ check_keys entries context allowed
    | _ ↦ skip
  ]

  unfoldable pub read_optional_string : Node → String → Loaded (Option String)
  read_optional_string node context = elim (view node) [
    | undefined ↦ return none
    | scalar text ↦ return (some text)
    | _ ↦ add_error context "expected string" >> return none
  ]

  unfoldable pub read_optional_bool : Node → String → Loaded (Option Bool)
  read_optional_bool node context = elim (view node) [
    | undefined ↦ return none
    | scalar text ↦ elim (to_bool text) [
      | some value ↦ return (some value)
      | none ↦ add_error context "expected boolean" >> return none
    ]
    | _ ↦ add_error context "expected boolean" >> return none
  ]

  unfoldable pub read_optional_int : Node → String → Loaded (Option ℤ)
  read_optional_int node context = elim (view node) [
    | undefined ↦ return none
    | scalar text ↦ elim (to_int text) [
      | some value ↦ return (some value)
      | none ↦ add_error context "expected integer" >> return none
    ]
    | _ ↦ add_error context "expected integer" >> return none
  ]

  -- The body of the loop of `ParseStringMap`, on the map so far.
  unfoldable pub add_string_entry : Node → Node → String → Map String → Loaded (Map String)
  add_string_entry first second context values = elim (view first) [
    | scalar key ↦ elim (view second) [
      | scalar value ↦
          if has_key key values
          then (add_error context ("duplicate key '" <> key <> "'") >> return values)
          else return (emplace key value values)
      | _ ↦ add_error context "expected string keys and values" >> return values
    ]
    | _ ↦ add_error context "expected string keys and values" >> return values
  ]

  unfoldable pub parse_string_entries :
      List (Node × Node) → String → Map String → Loaded (Map String)
  unfolding add_string_entry
  parse_string_entries [] context values = return values
  parse_string_entries ((first, second) ∷ entries) context values =
      add_string_entry first second context values >>= λ values'.
      parse_string_entries entries context values'

  unfoldable pub parse_string_map : Node → String → Loaded (Map String)
  unfolding parse_string_entries
  parse_string_map node context = elim (view node) [
    | undefined ↦ return []
    | mapping entries ↦ parse_string_entries entries context []
    | _ ↦ add_error context "expected mapping" >> return []
  ]
