-- ===== src/Loader/Load/Ports.antt =====
-- The ports of a config that was read without errors are in range.
use kubeforward.Base.{
  sym, subst, ℕ, suc, ◌≡◌, refl, String, ◌<>◌, true, Option, none, some, List, [], ◌∷◌, arith, All,
  append-eq-nil,
}
use kubeforward.Base.Int.{ℤ}
use kubeforward.Config.{PortMapping, ForwardDefinition, no_forward}
use kubeforward.Yaml.{Yaml, View, undefined, null, scalar, sequence, mapping}
use kubeforward.Loader.Errors.{indexed}
use kubeforward.Loader.Scalars.{
  read_optional_string, is_port_valid, read_optional_int, ensure_allowed_keys,
}
use kubeforward.Loader.Parts.{parse_resource_selector, accept_port, parse_port_mapping}
use kubeforward.Loader.Forwards.{
  accept_name, context_for_forward, parse_forwards, parse_forwards_node, parse_ports,
  parse_ports_node, parse_forward, parse_forward_annotations,
}

pub record InRange (port : PortMapping) : Type 0 where
  pub local : is_port_valid port.local_port ≡ true
  pub remote : is_port_valid port.remote_port ≡ true

-- Every port of the forward is in range.
abbrev pub PortsInRange : ForwardDefinition → Type 0
PortsInRange forward = All InRange forward.ports

accept_port_valid :
    (port : Option ℤ) (context missing : String)
    → (accept_port port context missing).errors ≡ []
    → is_port_valid (accept_port port context missing).value ≡ true
unfolding accept_port
accept_port_valid none context missing h = cc
accept_port_valid (some port) context missing h = ground arith

module _ (Y : Yaml) where
  open Y use {Node, view, child}

  mapping_ports :
      (node : Node) (context : String)
      → (parse_port_mapping Y node context).errors ≡ []
      → InRange (parse_port_mapping Y node context).value
  unfolding parse_port_mapping
  mapping_ports node context h = go (view node) refl
    where
      go : (v : View Node) → view node ≡ v → InRange (parse_port_mapping Y node context).value
      go undefined e = let k = rw (e, parse_port_mapping) at h in cc
      go null e = let k = rw (e, parse_port_mapping) at h in cc
      go (scalar t) e = let k = rw (e, parse_port_mapping) at h in cc
      go (sequence ns) e = let k = rw (e, parse_port_mapping) at h in cc
      go (mapping es) e =
          let k = rw (e, parse_port_mapping) at h in
          let (_, k1) = (append-eq-nil _ _).0 k in
          let (_, k2) = (append-eq-nil _ _).0 k1 in
          let (a, k3) = (append-eq-nil _ _).0 k2 in
          let (_, k4) = (append-eq-nil _ _).0 k3 in
          let (b, _) = (append-eq-nil _ _).0 k4 in
          rw (e, parse_port_mapping)
            (record {
              local =
                  accept_port_valid
                    (read_optional_int Y (child node "local") (context <> ".local")).value
                    (context <> ".local") "local port is required" a;
              remote =
                  accept_port_valid
                    (read_optional_int Y (child node "remote") (context <> ".remote")).value
                    (context <> ".remote") "remote port is required" b;
            })

  parse_ports_valid :
      (i : ℕ) (nodes : List Node) (context : String)
      → (parse_ports Y i nodes context).errors ≡ []
      → All InRange (parse_ports Y i nodes context).value
  unfolding parse_ports
  parse_ports_valid i [] context h = tt
  parse_ports_valid i (node ∷ nodes) context h =
      let (a, k) = (append-eq-nil _ _).0 h in
      let (b, _) = (append-eq-nil _ _).0 k in
      (
        mapping_ports node (indexed (context <> ".ports") i) a,
        parse_ports_valid (suc i) nodes context b,
      )

  annotations_valid :
      (node : Node) (context : String) (forward : ForwardDefinition)
      → PortsInRange forward
      → PortsInRange (parse_forward_annotations Y node context forward).value
  unfolding parse_forward_annotations
  annotations_valid node context forward p = subst (All InRange) (sym (kept node context forward)) p
    where
      kept :
          (node : Node) (context : String) (forward : ForwardDefinition)
          → (parse_forward_annotations Y node context forward).value.ports ≡ forward.ports
      kept node context forward = ground arith

  ports_node_valid :
      (node : Node) (context : String)
      → (parse_ports_node Y node context).errors ≡ []
      → All InRange (parse_ports_node Y node context).value
  unfolding parse_ports_node
  ports_node_valid node context h = go (view node) refl
    where
      go : (v : View Node) → view node ≡ v → All InRange (parse_ports_node Y node context).value
      go undefined e = let k = rw (e, parse_ports_node) at h in cc
      go null e = let k = rw (e, parse_ports_node) at h in cc
      go (scalar t) e = let k = rw (e, parse_ports_node) at h in cc
      go (mapping es) e = let k = rw (e, parse_ports_node) at h in cc
      go (sequence []) e = let k = rw (e, parse_ports_node) at h in cc
      go (sequence (n ∷ ns)) e =
          let k = rw (e, parse_ports_node) at h in
          rw (e, parse_ports_node) (parse_ports_valid 0 (n ∷ ns) context k)

  forward_mapping_valid :
      (node : Node) (context : String) (es : List (Node × Node))
      → view node ≡ mapping es
      → (parse_forward Y node context).errors ≡ []
      → PortsInRange (parse_forward Y node context).value
  unfolding parse_forward
  forward_mapping_valid node context es e h =
      let k = rw (e, parse_forward) at h in
      let (_, k1) = (append-eq-nil (ensure_allowed_keys Y node _ _).errors _).0 k in
      let (_, k2) = (append-eq-nil (read_optional_string Y _ _).errors _).0 k1 in
      let (_, k3) = (append-eq-nil (accept_name Y _ _).errors _).0 k2 in
      let (_, k4) = (append-eq-nil (parse_resource_selector Y _ _).errors _).0 k3 in
      let (a, _) = (append-eq-nil (parse_ports_node Y _ _).errors _).0 k4 in
      rw (e, parse_forward)
        (annotations_valid (child node "annotations") (context <> ".annotations")
          (record no_forward {
            name =
                (accept_name Y
                  (read_optional_string Y (child node "name") (context <> ".name")).value
                  (context <> ".name")).value;
            resource =
                (parse_resource_selector Y (child node "resource") (context <> ".resource")).value;
            ports = (parse_ports_node Y (child node "ports") context).value;
          })
          (ports_node_valid (child node "ports") context a))

  forward_valid :
      (node : Node) (context : String)
      → (parse_forward Y node context).errors ≡ []
      → PortsInRange (parse_forward Y node context).value
  unfolding parse_forward
  forward_valid node context h = go (view node) refl
    where
      go : (v : View Node) → view node ≡ v → PortsInRange (parse_forward Y node context).value
      go undefined e = let k = rw (e, parse_forward) at h in cc
      go null e = let k = rw (e, parse_forward) at h in cc
      go (scalar t) e = let k = rw (e, parse_forward) at h in cc
      go (sequence ns) e = let k = rw (e, parse_forward) at h in cc
      go (mapping es) e = forward_mapping_valid node context es e h

  forwards_valid :
      (i : ℕ) (nodes : List Node) (env_name : String)
      → (parse_forwards Y i nodes env_name).errors ≡ []
      → All PortsInRange (parse_forwards Y i nodes env_name).value
  unfolding parse_forwards
  forwards_valid i [] env_name h = tt
  forwards_valid i (node ∷ nodes) env_name h =
      let (a, k) = (append-eq-nil _ _).0 h in
      let (b, _) = (append-eq-nil _ _).0 k in
      (
        forward_valid node (context_for_forward env_name i) a,
        forwards_valid (suc i) nodes env_name b,
      )

  pub forwards_node_valid :
      (node : Node) (env_name : String) (extends : Option String)
      → (parse_forwards_node Y node env_name extends).errors ≡ []
      → All PortsInRange (parse_forwards_node Y node env_name extends).value
  unfolding parse_forwards_node
  forwards_node_valid node env_name extends h = go (view node) refl
    where
      go :
          (v : View Node)
          → view node ≡ v
          → All PortsInRange (parse_forwards_node Y node env_name extends).value
      go undefined e = rw (e, parse_forwards_node) tt
      go null e = let k = rw (e, parse_forwards_node) at h in cc
      go (scalar t) e = let k = rw (e, parse_forwards_node) at h in cc
      go (mapping es) e = let k = rw (e, parse_forwards_node) at h in cc
      go (sequence ns) e =
          let k = rw (e, parse_forwards_node) at h in
          rw (e, parse_forwards_node) (forwards_valid 0 ns env_name k)
