-- ===== src/Nodes.antt =====
-- Which node runs a scan: `selectNode` and `nodeForIP` of internal/store/nodes.go. Parameters are
-- `net.ParseCIDR` on a trimmed text and `targetIP`, which reads an address from a target by
-- `net.ParseCIDR`, `net.SplitHostPort` and `net.ParseIP`.
pub mod Selection
pub mod Overlap
pub mod Disjoint
pub mod Writes
pub mod Runs
use nuclei_security_center.Common.{
  String, Bool, true, false, Option, none, some, List, [], ◌∷◌, ◌||◌, str_eq, if◌then◌else◌, Chars,
}
use nuclei_security_center.Common.Int.{ℤ}
use nuclei_security_center.Scope.{Addr, Prefix, contains}
use nuclei_security_center.Login.Clients.{trim_space}

-- The fields of ScannerNode that the selection and the submission read.
pub record ScannerNode : Type 0 where
  pub id : String
  pub name : String
  pub cidrs : List Chars
  pub max_concurrent_scans : ℤ

-- The result, or the two errors; `spans` carries the names of the two nodes.
pub data Selected : Type 0 where
  selected : ScannerNode → Selected
  no_node_for_target : Selected
  spans : String → String → Selected

module _ (parse_cidr : Chars → Option Prefix) (target_ip : Chars → Option Addr) where
  unfoldable pub cidr_contains : Option Prefix → Addr → Bool
  unfolding contains
  cidr_contains none ip = false
  cidr_contains (some n) ip = contains n ip

  unfoldable pub serves : List Chars → Addr → Bool
  unfolding cidr_contains trim_space
  serves [] ip = false
  serves (c ∷ cidrs) ip = cidr_contains (parse_cidr (trim_space c)) ip || serves cidrs ip

  unfoldable pub node_for_ip : List ScannerNode → Addr → Option ScannerNode
  unfolding serves
  node_for_ip [] ip = none
  node_for_ip (n ∷ nodes) ip = if serves n.cidrs ip then some n else node_for_ip nodes ip

  unfoldable pub node_of_ip : List ScannerNode → Option Addr → Option ScannerNode
  unfolding node_for_ip
  node_of_ip nodes none = none
  node_of_ip nodes (some ip) = node_for_ip nodes ip

  -- The node whose ranges hold the target's address, if it has one.
  unfoldable pub node_of : List ScannerNode → Chars → Option ScannerNode
  unfolding node_of_ip
  node_of nodes t = node_of_ip nodes (target_ip t)

  unfoldable pub catch_all : List ScannerNode → Selected
  catch_all [] = no_node_for_target
  catch_all (n ∷ nodes) = elim n.cidrs [ [] ↦ selected n | c ∷ cs ↦ catch_all nodes ]

  unfoldable pub conclude : List ScannerNode → Option ScannerNode → Selected
  unfolding catch_all
  conclude nodes none = catch_all nodes
  conclude nodes (some n) = selected n

  -- The loop over the nodes of the targets, with the node that is matched so far.
  unfoldable pub match_nodes :
      List ScannerNode → Option ScannerNode → List (Option ScannerNode) → Selected
  unfolding conclude
  match_nodes nodes matched [] = conclude nodes matched
  match_nodes nodes matched (none ∷ found) = match_nodes nodes matched found
  match_nodes nodes none (some n ∷ found) = match_nodes nodes (some n) found
  match_nodes nodes (some m) (some n ∷ found) =
      let rest = match_nodes nodes (some m) found in
      if str_eq m.id n.id then rest else spans m.name n.name

  unfoldable pub nodes_of : List ScannerNode → List Chars → List (Option ScannerNode)
  unfolding node_of
  nodes_of nodes [] = []
  nodes_of nodes (t ∷ targets) = node_of nodes t ∷ nodes_of nodes targets

  unfoldable pub select_node : List ScannerNode → List Chars → Selected
  unfolding match_nodes nodes_of
  select_node nodes targets = match_nodes nodes none (nodes_of nodes targets)
