-- ===== src/Nodes/Runs.antt =====
-- Any run of the writes to the table of scanner nodes.
use nuclei_security_center.Common.{
  ◌≡◌, String, Bool, true, not, Option, some, List, [], ◌∷◌, All, str_eq, Chars, arith,
}
use nuclei_security_center.Scope.{Prefix, unzoned}
use nuclei_security_center.Nodes.{ScannerNode}
use nuclei_security_center.Nodes.Overlap.{
  Written, written, rejected, create_scanner_node, update_scanner_node, delete_scanner_node,
}
use nuclei_security_center.Nodes.Disjoint.{Disjoint}
use nuclei_security_center.Nodes.Writes.{Sound, SoundOr, create-Sound, update-Sound, delete-Sound}

pub data NodeEvent : Type 0 where
  node_created node_updated : String → ScannerNode → NodeEvent
  node_deleted : String → NodeEvent

-- The id that a node is written with is not empty.
abbrev pub named : NodeEvent → Bool
named (node_created id n) = not (str_eq id "")
named (node_updated id n) = not (str_eq id "")
named (node_deleted id) = true

abbrev pub after_write : Written → List ScannerNode → List ScannerNode
after_write (written nodes) before = nodes
after_write (rejected e) before = before

module _ (parse_cidr : Chars → Option Prefix) where
  abbrev pub write : NodeEvent → List ScannerNode → Written
  write (node_created id n) nodes = create_scanner_node parse_cidr id n nodes
  write (node_updated id n) nodes = update_scanner_node parse_cidr id n nodes
  write (node_deleted id) nodes = delete_scanner_node id nodes

  unfoldable pub node_events : List NodeEvent → List ScannerNode → List ScannerNode
  node_events [] nodes = nodes
  node_events (e ∷ events) nodes = node_events events (after_write (write e nodes) nodes)

module _ (parse_cidr : Chars → Option Prefix)
    (network : (s : Chars) (p : Prefix) → parse_cidr s ≡ some p → unzoned p.addr ≡ true) where
  write-Sound :
      (e : NodeEvent) (nodes : List ScannerNode)
      → named e ≡ true
      → Sound parse_cidr network nodes
      → SoundOr parse_cidr network (write parse_cidr e nodes)
  write-Sound (node_created id n) nodes i s =
      create-Sound parse_cidr network id n nodes (ground arith) s
  write-Sound (node_updated id n) nodes i s =
      update-Sound parse_cidr network id n nodes (ground arith) s
  write-Sound (node_deleted id) nodes i s = delete-Sound parse_cidr network id nodes s

  after_write-Sound :
      (w : Written) (nodes : List ScannerNode)
      → Sound parse_cidr network nodes
      → SoundOr parse_cidr network w
      → Sound parse_cidr network (after_write w nodes)
  after_write-Sound (written ns) nodes s h = h
  after_write-Sound (rejected e) nodes s h = s

  node_events-Sound :
      (events : List NodeEvent) (nodes : List ScannerNode)
      → All (λ e. named e ≡ true) events
      → Sound parse_cidr network nodes
      → Sound parse_cidr network (node_events parse_cidr events nodes)
  unfolding node_events
  node_events-Sound [] nodes h s = s
  node_events-Sound (e ∷ events) nodes (h, hs) s =
      node_events-Sound events (after_write (write parse_cidr e nodes) nodes) hs
        (after_write-Sound (write parse_cidr e nodes) nodes s (write-Sound e nodes h s))

  -- From the empty table, after any creations, changes and deletions of nodes, whatever is refused
  -- among them, two nodes whose ranges share an address have the same id. The networks that
  -- `net.ParseCIDR` yields have no zone, and no node is written with an empty id.
  pub node_events-Disjoint :
      (events : List NodeEvent)
      → All (λ e. named e ≡ true) events
      → Disjoint parse_cidr (node_events parse_cidr events [])
  node_events-Disjoint events h = (node_events-Sound events [] h (tt, tt)).1
