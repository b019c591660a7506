-- ===== src/Nodes/Overlap.antt =====
-- The write path of internal/store/nodes.go: a node is written under a table lock after its ranges are
-- compared with those of the other nodes. The table is a list of nodes; a fresh id is an argument.
use nuclei_security_center.Common.{
  ℕ, suc, String, Bool, true, false, not, ◌&&◌, ◌||◌, Option, none, some, List, [], ◌∷◌, any,
  str_eq, if◌then◌else◌, Chars, ◌==◌,
}
use nuclei_security_center.Common.Int.{pos, is_zero}
use nuclei_security_center.Login.Clients.{trim_space}
use nuclei_security_center.Admission.Node.{default_max_concurrent_scans}
use nuclei_security_center.Scope.{Prefix, contains}
use nuclei_security_center.Nodes.{ScannerNode}

abbrev pub overlaps : Prefix → Prefix → Bool
overlaps a b = contains a b.addr || contains b a.addr

-- The errors of the three operations.
pub data NodeError : Type 0 where
  bad_cidr node_overlap conflict node_not_found last_catch_all : NodeError

pub data Written : Type 0 where
  written : List ScannerNode → Written
  rejected : NodeError → Written

abbrev pub is_catch_all : ScannerNode → Bool
is_catch_all n = elim n.cidrs [ [] ↦ true | c ∷ cs ↦ false ]

unfoldable pub count_catch_alls : List ScannerNode → ℕ
count_catch_alls [] = 0
count_catch_alls (n ∷ nodes) =
    let rest = count_catch_alls nodes in if is_catch_all n then suc rest else rest

-- The last node with the id.
unfoldable pub find_node : String → List ScannerNode → Option ScannerNode
find_node id [] = none
find_node id (n ∷ nodes) = elim (find_node id nodes) [
  | some m ↦ some m
  | none ↦ if str_eq n.id id then some n else none
]

unfoldable pub remove_node : String → List ScannerNode → List ScannerNode
remove_node id [] = []
remove_node id (n ∷ nodes) =
    let rest = remove_node id nodes in if str_eq n.id id then rest else n ∷ rest

unfoldable pub delete_scanner_node : String → List ScannerNode → Written
unfolding find_node count_catch_alls remove_node
delete_scanner_node id nodes = elim (find_node id nodes) [
  | none ↦ rejected node_not_found
  | some target ↦
      if is_catch_all target && (count_catch_alls nodes == 1)
      then rejected last_catch_all
      else written (remove_node id nodes)
]

-- Whether a name is taken, by a node with another id.
unfoldable pub name_taken : String → String → List ScannerNode → Bool
name_taken id name [] = false
name_taken id name (n ∷ nodes) =
    (str_eq n.name name && not (str_eq n.id id)) || name_taken id name nodes

unfoldable pub id_taken : String → List ScannerNode → Bool
id_taken id [] = false
id_taken id (n ∷ nodes) = str_eq n.id id || id_taken id nodes

-- The UPDATE, on the columns that are modelled.
unfoldable pub set_node : ScannerNode → List ScannerNode → List ScannerNode
set_node m [] = []
set_node m (n ∷ nodes) =
    let rest = set_node m nodes in if str_eq n.id m.id then m ∷ rest else n ∷ rest

abbrev pub with_default : ScannerNode → ScannerNode
with_default n =
    if is_zero n.max_concurrent_scans
    then record n { max_concurrent_scans = pos default_max_concurrent_scans }
    else n

module _ (parse_cidr : Chars → Option Prefix) where
  abbrev pub cons_parsed : Option Prefix → Option (List Prefix) → Option (List Prefix)
  cons_parsed none ns = none
  cons_parsed (some n) none = none
  cons_parsed (some n) (some ns) = some (n ∷ ns)

  unfoldable pub parse_cidrs : List Chars → Option (List Prefix)
  unfolding trim_space
  parse_cidrs [] = some []
  parse_cidrs (c ∷ cidrs) = cons_parsed (parse_cidr (trim_space c)) (parse_cidrs cidrs)

  -- A stored node that does not parse is passed over.
  abbrev pub clash : List Prefix → Option (List Prefix) → Bool
  clash news none = false
  clash news (some others) = any (λ a. any (overlaps a) others) news

  unfoldable pub clashes : String → List Prefix → List ScannerNode → Bool
  unfolding parse_cidrs
  clashes exclude_id news [] = false
  clashes exclude_id news (n ∷ nodes) =
      let rest = clashes exclude_id news nodes in
      if str_eq n.id exclude_id then rest else clash news (parse_cidrs n.cidrs) || rest

  -- `lockAndCheckOverlap`: no error, or the error.
  unfoldable pub lock_and_check_overlap : String → List Chars → List ScannerNode → Option NodeError
  unfolding parse_cidrs clashes
  lock_and_check_overlap exclude_id cidrs nodes = elim (parse_cidrs cidrs) [
    | none ↦ some bad_cidr
    | some [] ↦ none
    | some (a ∷ news) ↦ if clashes exclude_id (a ∷ news) nodes then some node_overlap else none
  ]

  unfoldable pub create_scanner_node : String → ScannerNode → List ScannerNode → Written
  unfolding lock_and_check_overlap id_taken name_taken
  create_scanner_node id given nodes =
      let n = record (with_default given) { id = id } in
      elim (lock_and_check_overlap "" n.cidrs nodes) [
        | some e ↦ rejected e
        | none ↦
            if id_taken id nodes || name_taken id n.name nodes
            then rejected conflict
            else written (n ∷ nodes)
      ]

  unfoldable pub update_scanner_node : String → ScannerNode → List ScannerNode → Written
  unfolding lock_and_check_overlap id_taken name_taken set_node
  update_scanner_node id given nodes =
      let n = record given { id = id } in
      elim (lock_and_check_overlap id n.cidrs nodes) [
        | some e ↦ rejected e
        | none ↦
            if not (id_taken id nodes)
            then rejected node_not_found
            else if name_taken id n.name nodes
            then rejected conflict
            else written (set_node n nodes)
      ]
