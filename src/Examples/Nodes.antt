-- ===== src/Examples/Nodes.antt =====
-- Runs of the selection of a node.
use nuclei_security_center.Common.{
  ◌≡◌, refl, true, arith, Option, none, some, [], ◌∷◌, All, Chars, if◌then◌else◌, ◌==◌,
}
use nuclei_security_center.Common.Int.{pos}
use nuclei_security_center.Scope.{v4, Addr, Prefix, contains, unzoned}
use nuclei_security_center.Login.Clients.{is_space, trim_left, trim_space}
use nuclei_security_center.Nodes.{
  ScannerNode, selected, cidr_contains, serves, node_for_ip, node_of_ip, node_of, nodes_of,
  conclude, match_nodes, select_node,
}
use nuclei_security_center.Nodes.Disjoint.{Disjoint}
use nuclei_security_center.Nodes.Runs.{node_created, node_events, node_events-Disjoint}
use nuclei_security_center.Nodes.Selection.{Routed, select_node_sound, select_node-unmatched}

-- A text of one code point is the address, or the range of that one address; "h" is a host name.
abbrev target_ip : Chars → Option Addr
target_ip (c ∷ []) = if c == 104 then none else some (record { family = v4; value = c; zone = [] })
target_ip _ = none

abbrev parse_cidr : Chars → Option Prefix
parse_cidr (c ∷ []) =
    some (record { addr = record { family = v4; value = c; zone = [] }; bits = 32 })
parse_cidr _ = none

abbrev inner : ScannerNode
inner = record { id = "1"; name = "inner"; cidrs = (65 ∷ []) ∷ []; max_concurrent_scans = pos 2 }

abbrev outer : ScannerNode
outer = record { id = "2"; name = "outer"; cidrs = []; max_concurrent_scans = pos 0 }

select_node_sound_example :
    All (Routed parse_cidr target_ip (outer ∷ inner ∷ []) inner) ((104 ∷ []) ∷ (65 ∷ []) ∷ [])
unfolding contains is_space trim_left trim_space cidr_contains serves node_for_ip node_of_ip node_of
    nodes_of conclude match_nodes select_node
select_node_sound_example =
    select_node_sound parse_cidr target_ip (outer ∷ inner ∷ []) ((104 ∷ []) ∷ (65 ∷ []) ∷ []) inner
      refl

-- The host name goes to the node of the address, though there is a catch-all.
select_node-unmatched_example :
    select_node parse_cidr target_ip (outer ∷ inner ∷ []) ((65 ∷ []) ∷ (104 ∷ []) ∷ [])
    ≡ selected inner
unfolding contains is_space trim_left trim_space cidr_contains serves node_for_ip node_of_ip node_of
    nodes_of
select_node-unmatched_example =
    select_node-unmatched parse_cidr target_ip (outer ∷ inner ∷ []) (65 ∷ []) ((104 ∷ []) ∷ [])
      inner refl (tt, tt)

-- The networks that the test's `parse_cidr` yields have no zone.
network : (s : Chars) (p : Prefix) → parse_cidr s ≡ some p → unzoned p.addr ≡ true
network [] p h = ground arith
network (c ∷ []) p h =
    let e : record { addr = record { family = v4; value = c; zone = [] }; bits = 32 } ≡ p =
      ground arith in
    rw (← e) refl
network (c ∷ d ∷ s) p h = ground arith

node_events-Disjoint_example : Disjoint parse_cidr (
    node_events parse_cidr
      (node_created "1" inner ∷ node_created "2" outer ∷ node_created "3" inner ∷ [])
      [])
node_events-Disjoint_example =
    node_events-Disjoint parse_cidr network
      (node_created "1" inner ∷ node_created "2" outer ∷ node_created "3" inner ∷ [])
      (refl, (refl, (refl, tt)))
