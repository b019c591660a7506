-- ===== src/Nodes/Writes.antt =====
-- Any writes to the table of scanner nodes keep the ranges of different nodes apart.
use nuclei_security_center.Common.{
  ◌≡◌, refl, sym, inl, inr, String, true, false, not, ◌&&◌, ◌||◌, Option, none, some, List, [], ◌∷◌,
  All, str_eq, if◌then◌else◌, Chars, ◌==◌, arith, Bool-cases, Option-cases,
}
use nuclei_security_center.Scope.{Prefix, unzoned}
use nuclei_security_center.Nodes.{ScannerNode}
use nuclei_security_center.Nodes.Overlap.{
  Written, written, rejected, parse_cidrs, clashes, lock_and_check_overlap, create_scanner_node,
  update_scanner_node, delete_scanner_node, set_node, remove_node, id_taken, name_taken,
  with_default, find_node, count_catch_alls, is_catch_all, node_overlap, bad_cidr,
}
use nuclei_security_center.Nodes.Disjoint.{Separate, Apart, Disjoint, Stored, clashes-Separate}

module _ (parse_cidr : Chars → Option Prefix)
    (network : (s : Chars) (p : Prefix) → parse_cidr s ≡ some p → unzoned p.addr ≡ true) where
  clashes_nil :
      (exclude_id : String) (nodes : List ScannerNode)
      → clashes parse_cidr exclude_id [] nodes ≡ false
  unfolding clashes
  clashes_nil exclude_id [] = refl
  clashes_nil exclude_id (n ∷ nodes) = elim (Option-cases (parse_cidrs parse_cidr n.cidrs)) [
    | inl e ↦ rw (clashes, e) (ground (arith, clashes_nil exclude_id nodes))
    | inr (ns, e) ↦ rw (clashes, e) (ground (arith, clashes_nil exclude_id nodes))
  ]

  unclashed :
      (exclude_id : String) (nodes : List ScannerNode) (ns : List Prefix)
      → (elim ns [
        | [] ↦ none
        | a ∷ news ↦
            if clashes parse_cidr exclude_id (a ∷ news) nodes then some node_overlap else none
      ])
        ≡ none
      → clashes parse_cidr exclude_id ns nodes ≡ false
  unclashed exclude_id nodes [] h = clashes_nil exclude_id nodes
  unclashed exclude_id nodes (a ∷ news) h = ground arith

  -- What the check lets through parses, and is separate from the nodes it is compared with.
  check-Separate :
      (exclude_id : String) (cidrs : List Chars) (nodes : List ScannerNode)
      → lock_and_check_overlap parse_cidr exclude_id cidrs nodes ≡ none
      → All (Stored parse_cidr) nodes
      → ((ns : List Prefix) × (parse_cidrs parse_cidr cidrs ≡ some ns))
        × All (λ m. str_eq m.id exclude_id ≡ false → Separate parse_cidr cidrs m.cidrs) nodes
  unfolding lock_and_check_overlap
  check-Separate exclude_id cidrs nodes h s = elim (Option-cases (parse_cidrs parse_cidr cidrs)) [
    | inl e ↦ none_some nodes (rw (lock_and_check_overlap, e) at h)
    | inr (ns, e) ↦ (
      (ns, e),
      clashes-Separate parse_cidr network exclude_id cidrs ns nodes e s
          (unclashed exclude_id nodes ns (rw (lock_and_check_overlap, e) at h)),
    )
  ]
    where
      none_some :
          (nodes : List ScannerNode)
          → some bad_cidr ≡ none
          → ((ns : List Prefix) × (parse_cidrs parse_cidr cidrs ≡ some ns))
            × All (λ m. str_eq m.id exclude_id ≡ false → Separate parse_cidr cidrs m.cidrs) nodes
      none_some nodes k = ground arith

  abbrev pub Sound : List ScannerNode → Type 0
  Sound nodes = All (Stored parse_cidr) nodes × Disjoint parse_cidr nodes

  abbrev pub SoundOr : Written → Type 0
  SoundOr (rejected e) = Unit
  SoundOr (written nodes) = Sound nodes

  Separate-Apart : (n m : ScannerNode) → Separate parse_cidr n.cidrs m.cidrs → Apart parse_cidr n m
  Separate-Apart n m h ip a b = ground (arith, h ip)

  Apart-sym : (n m : ScannerNode) → Apart parse_cidr n m → Apart parse_cidr m n
  Apart-sym n m h ip a b = sym (h ip b a)

  -- A new node is apart from every node.
  All-Apart :
      (n : ScannerNode) (nodes : List ScannerNode)
      → All (Stored parse_cidr) nodes
      → All (λ m. str_eq m.id "" ≡ false → Separate parse_cidr n.cidrs m.cidrs) nodes
      → All (Apart parse_cidr n) nodes
  All-Apart n [] s h = tt
  All-Apart n (m ∷ nodes) ((r, i), s) (h, hs) = (Separate-Apart n m (h i), All-Apart n nodes s hs)

  pub create-Sound :
      (id : String) (given : ScannerNode) (nodes : List ScannerNode)
      → str_eq id "" ≡ false
      → Sound nodes
      → SoundOr (create_scanner_node parse_cidr id given nodes)
  unfolding create_scanner_node
  create-Sound id given nodes i (s, d) =
      let n = record (with_default given) { id = id } in
      elim (Option-cases (lock_and_check_overlap parse_cidr "" n.cidrs nodes)) [
        | inr (e, k) ↦ rw (create_scanner_node, k) tt
        | inl k ↦ elim (Bool-cases (id_taken id nodes || name_taken id n.name nodes)) [
          | inl p ↦ rw (create_scanner_node, k, p) tt
          | inr p ↦
              let (r, a) = check-Separate "" n.cidrs nodes k s in
              rw (create_scanner_node, k, p) (((r, i), s), (All-Apart n nodes s a, d))
        ]
      ]

  set-All :
      (P : ScannerNode → Type 0) (n : ScannerNode) (nodes : List ScannerNode)
      → P n
      → All P nodes
      → All P (set_node n nodes)
  unfolding set_node
  set-All P n [] h s = tt
  set-All P n (m ∷ nodes) h (k, s) = elim (Bool-cases (str_eq m.id n.id)) [
    | inl p ↦ rw (set_node, p) (h, set-All P n nodes h s)
    | inr p ↦ rw (set_node, p) (k, set-All P n nodes h s)
  ]

  -- The node that is written is apart from itself and from the nodes with other ids.
  set-Apart :
      (n : ScannerNode) (nodes : List ScannerNode)
      → All (λ m. str_eq m.id n.id ≡ false → Separate parse_cidr n.cidrs m.cidrs) nodes
      → All (Apart parse_cidr n) (set_node n nodes)
  unfolding set_node
  set-Apart n [] h = tt
  set-Apart n (m ∷ nodes) (h, hs) = elim (Bool-cases (str_eq m.id n.id)) [
    | inl p ↦ rw (set_node, p) (λ ip a b. refl, set-Apart n nodes hs)
    | inr p ↦ rw (set_node, p) (Separate-Apart n m (h p), set-Apart n nodes hs)
  ]

  set-Disjoint :
      (n : ScannerNode) (nodes : List ScannerNode)
      → All (λ m. str_eq m.id n.id ≡ false → Separate parse_cidr n.cidrs m.cidrs) nodes
      → Disjoint parse_cidr nodes
      → Disjoint parse_cidr (set_node n nodes)
  unfolding set_node
  set-Disjoint n [] h d = tt
  set-Disjoint n (m ∷ nodes) (h, hs) (a, d) = elim (Bool-cases (str_eq m.id n.id)) [
    | inl p ↦ rw (set_node, p) (set-Apart n nodes hs, set-Disjoint n nodes hs d)
    | inr p ↦
        rw (set_node, p)
          (
            set-All (Apart parse_cidr m) n nodes (Apart-sym n m (Separate-Apart n m (h p))) a,
            set-Disjoint n nodes hs d,
          )
  ]

  pub update-Sound :
      (id : String) (given : ScannerNode) (nodes : List ScannerNode)
      → str_eq id "" ≡ false
      → Sound nodes
      → SoundOr (update_scanner_node parse_cidr id given nodes)
  unfolding update_scanner_node
  update-Sound id given nodes i (s, d) =
      let n = record given { id = id } in
      elim (Option-cases (lock_and_check_overlap parse_cidr id n.cidrs nodes)) [
        | inr (e, k) ↦ rw (update_scanner_node, k) tt
        | inl k ↦ elim (Bool-cases (not (id_taken id nodes))) [
          | inl p ↦ rw (update_scanner_node, k, p) tt
          | inr p ↦ elim (Bool-cases (name_taken id n.name nodes)) [
            | inl q ↦ rw (update_scanner_node, k, p, q) tt
            | inr q ↦
                let (r, a) = check-Separate id n.cidrs nodes k s in
                rw (update_scanner_node, k, p, q)
                  (set-All (Stored parse_cidr) n nodes (r, i) s, set-Disjoint n nodes a d)
          ]
        ]
      ]

  remove-All :
      (P : ScannerNode → Type 0) (id : String) (nodes : List ScannerNode)
      → All P nodes
      → All P (remove_node id nodes)
  unfolding remove_node
  remove-All P id [] s = tt
  remove-All P id (n ∷ nodes) (k, s) = elim (Bool-cases (str_eq n.id id)) [
    | inl p ↦ rw (remove_node, p) (remove-All P id nodes s)
    | inr p ↦ rw (remove_node, p) (k, remove-All P id nodes s)
  ]

  remove-Disjoint :
      (id : String) (nodes : List ScannerNode)
      → Disjoint parse_cidr nodes
      → Disjoint parse_cidr (remove_node id nodes)
  unfolding remove_node
  remove-Disjoint id [] d = tt
  remove-Disjoint id (n ∷ nodes) (a, d) = elim (Bool-cases (str_eq n.id id)) [
    | inl p ↦ rw (remove_node, p) (remove-Disjoint id nodes d)
    | inr p ↦
        rw (remove_node, p) (remove-All (Apart parse_cidr n) id nodes a, remove-Disjoint id nodes d)
  ]

  pub delete-Sound :
      (id : String) (nodes : List ScannerNode)
      → Sound nodes
      → SoundOr (delete_scanner_node id nodes)
  unfolding delete_scanner_node
  delete-Sound id nodes (s, d) = elim (Option-cases (find_node id nodes)) [
    | inl e ↦ rw (delete_scanner_node, e) tt
    | inr (t, e) ↦ elim (Bool-cases (is_catch_all t && (count_catch_alls nodes == 1))) [
      | inl p ↦ rw (delete_scanner_node, e, p) tt
      | inr p ↦
          rw (delete_scanner_node, e, p)
            (remove-All (Stored parse_cidr) id nodes s, remove-Disjoint id nodes d)
    ]
  ]
