-- ===== src/Nodes/Selection.antt =====
-- What the selection of a node guarantees.
use nuclei_security_center.Common.{
  ◌≡◌, refl, Option, none, some, List, [], ◌∷◌, arith, str_eq, eq_iff, Chars, All, Any, Bool-cases,
  inl, inr, true, ◌↔◌, ◌⊎◌,
}
use nuclei_security_center.Scope.{Addr, Prefix, contains}
use nuclei_security_center.Login.Clients.{trim_space}
use nuclei_security_center.Nodes.{
  ScannerNode, selected, cidr_contains, serves, node_for_ip, node_of_ip, node_of, conclude,
  match_nodes, nodes_of, select_node,
}

-- A target that no node's ranges hold goes with any node, another with the node that holds it.
abbrev pub GoesWith : ScannerNode → Option ScannerNode → Type 0
GoesWith n none = Unit
GoesWith n (some m) = m.id ≡ n.id

module _ (parse_cidr : Chars → Option Prefix) (target_ip : Chars → Option Addr)
    (nodes : List ScannerNode) where
  matched-All :
      (m : ScannerNode) (found : List (Option ScannerNode)) (n : ScannerNode)
      → match_nodes parse_cidr target_ip nodes (some m) found ≡ selected n
      → (m.id ≡ n.id) × All (GoesWith n) found
  unfolding match_nodes conclude
  matched-All m [] n h = (ground arith, tt)
  matched-All m (none ∷ found) n h = let (a, b) = matched-All m found n h in (a, (tt, b))
  matched-All m (some k ∷ found) n h = elim (Bool-cases (str_eq m.id k.id)) [
    | inl same ↦
        let (a, b) = matched-All m found n (ground arith) in
        (a, (ground (arith, eq_iff m.id k.id), b))
    | inr other ↦ ground arith
  ]

  matched_any :
      (found : List (Option ScannerNode)) (n : ScannerNode)
      → match_nodes parse_cidr target_ip nodes none found ≡ selected n
      → All (GoesWith n) found
  unfolding match_nodes
  matched_any [] n h = tt
  matched_any (none ∷ found) n h = (tt, matched_any found n h)
  matched_any (some m ∷ found) n h = matched-All m found n h

  -- Some range of the node parses and contains the address.
  abbrev pub Holds : Addr → ScannerNode → Type 0
  Holds ip m =
      Any (λ c. (p : Prefix) × (parse_cidr (trim_space c) ≡ some p) × (contains p ip ≡ true))
        m.cidrs

  -- The target has no address, or it has one that no node holds, or that a node with the id of `n`
  -- holds.
  abbrev pub Routed : ScannerNode → Chars → Type 0
  Routed n t =
      (target_ip t ≡ none)
      ⊎ ((ip : Addr) × (target_ip t ≡ some ip)
          × (All (λ m. ¬ Holds ip m) nodes ⊎ Any (λ m. Holds ip m × (m.id ≡ n.id)) nodes))

  cidr_contains-Holds :
      (ip : Addr) (o : Option Prefix)
      → (cidr_contains parse_cidr target_ip o ip ≡ true)
        ↔ ((p : Prefix) × (o ≡ some p) × (contains p ip ≡ true))
  unfolding cidr_contains
  cidr_contains-Holds ip none = (λ h. ground arith, λ h. ground arith)
  cidr_contains-Holds ip (some p) = (λ h. (p, refl, h), λ h. ground arith)

  serves-Holds :
      (ip : Addr) (cidrs : List Chars)
      → (serves parse_cidr target_ip cidrs ip ≡ true)
        ↔ Any
            (λ c. (p : Prefix) × (parse_cidr (trim_space c) ≡ some p) × (contains p ip ≡ true))
            cidrs
  unfolding serves
  serves-Holds ip [] = (λ h. ground arith, λ h. elim h [ ])
  serves-Holds ip (c ∷ cidrs) =
      ground (arith, cidr_contains-Holds ip (parse_cidr (trim_space c)), serves-Holds ip cidrs)

  -- What `nodeForIP` finds: nothing if no node holds the address, else a node that does.
  Found : Addr → List ScannerNode → Option ScannerNode → Type 0
  Found ip ns none = All (λ m. ¬ Holds ip m) ns
  Found ip ns (some k) = Any (λ m. Holds ip m × (m.id ≡ k.id)) ns

  node_for_ip-Found :
      (ip : Addr) (ns : List ScannerNode) → Found ip ns (node_for_ip parse_cidr target_ip ns ip)
  unfolding node_for_ip Found
  node_for_ip-Found ip [] = tt
  node_for_ip-Found ip (m ∷ ns) = elim (Bool-cases (serves parse_cidr target_ip m.cidrs ip)) [
    | inl p ↦ rw (node_for_ip, p) (inl ((serves-Holds ip m.cidrs).0 p, refl))
    | inr p ↦
        rw (node_for_ip, p)
          (behind (node_for_ip parse_cidr target_ip ns ip)
            (λ h. ground (arith, p, (serves-Holds ip m.cidrs).1 h)) (node_for_ip-Found ip ns))
  ]
    where
      behind : (o : Option ScannerNode) → ¬ Holds ip m → Found ip ns o → Found ip (m ∷ ns) o
      behind none k h = (k, h)
      behind (some j) k h = inr h

  goes-Routed :
      (n : ScannerNode) (t : Chars) (o : Option Addr)
      → target_ip t ≡ o
      → GoesWith n (node_of_ip parse_cidr target_ip nodes o)
      → Routed n t
  unfolding node_of_ip Found
  goes-Routed n t none e g = inl e
  goes-Routed n t (some ip) e g =
      inr (ip, e, held (node_for_ip parse_cidr target_ip nodes ip) g (node_for_ip-Found ip nodes))
    where
      held :
          (o : Option ScannerNode)
          → GoesWith n o
          → Found ip nodes o
          → All (λ m. ¬ Holds ip m) nodes ⊎ Any (λ m. Holds ip m × (m.id ≡ n.id)) nodes
      held none g f = inl f
      held (some k) g f = inr (rw (← g) f)

  All-Routed :
      (n : ScannerNode) (targets : List Chars)
      → All (GoesWith n) (nodes_of parse_cidr target_ip nodes targets)
      → All (Routed n) targets
  unfolding nodes_of node_of
  All-Routed n [] h = tt
  All-Routed n (t ∷ targets) (g, h) = (goes-Routed n t (target_ip t) refl g, All-Routed n targets h)

  -- Where a node is selected, every target that has an address either has one that no node's ranges
  -- contain, or one that the ranges of a node with the selected node's id contain. A range that does
  -- not parse contains nothing.
  pub select_node_sound :
      (targets : List Chars) (n : ScannerNode)
      → select_node parse_cidr target_ip nodes targets ≡ selected n
      → All (Routed n) targets
  unfolding select_node
  select_node_sound targets n h =
      All-Routed n targets (matched_any (nodes_of parse_cidr target_ip nodes targets) n h)

  match_rest :
      (m : ScannerNode) (found : List (Option ScannerNode))
      → All (GoesWith m) found
      → match_nodes parse_cidr target_ip nodes (some m) found ≡ selected m
  unfolding match_nodes conclude
  match_rest m [] h = refl
  match_rest m (none ∷ found) (h, hs) = match_rest m found hs
  match_rest m (some k ∷ found) (h, hs) = ground (arith, eq_iff m.id k.id, match_rest m found hs)

  -- If the first target is in the ranges of a node, and each of the others is in those of a node
  -- with the same id or in no node's, that node is selected, whether or not there is a catch-all.
  pub select_node-unmatched :
      (t : Chars) (targets : List Chars) (n : ScannerNode)
      → node_of parse_cidr target_ip nodes t ≡ some n
      → All (GoesWith n) (nodes_of parse_cidr target_ip nodes targets)
      → select_node parse_cidr target_ip nodes (t ∷ targets) ≡ selected n
  unfolding select_node nodes_of match_nodes
  select_node-unmatched t targets n h hs = rw h (match_rest n _ hs)
