-- ===== src/Nodes/Disjoint.antt =====
-- The ranges of two nodes never share an address.
use nuclei_security_center.Common.{
  ℕ, ◌/◌, ◌≡◌, refl, inl, inr, String, true, false, ◌&&◌, ◌||◌, Option, none, some, List, [], ◌∷◌,
  any, All, str_eq, Chars, leb, ◌==◌, arith, Bool-cases,
}
use nuclei_security_center.Login.Clients.{trim_space}
use nuclei_security_center.Scope.{
  Family, v4, v6, same_family, Addr, Prefix, contains, block, unzoned,
}
use nuclei_security_center.Scope.Guard.{agree}
use nuclei_security_center.Nodes.{ScannerNode, cidr_contains, serves}
use nuclei_security_center.Nodes.Overlap.{overlaps, parse_cidrs, cons_parsed, clash, clashes}

meet_in :
    (f g i : Family) (m n x y z : ℕ)
    → same_family f i && (x / block f m == z / block f m) ≡ true
    → same_family g i && (y / block g n == z / block g n) ≡ true
    → (same_family f g && (x / block f m == y / block f m))
        || (same_family g f && (y / block g n == x / block g n))
      ≡ true
meet_in v4 v4 v4 m n x y z h k = elim (Bool-cases (leb m n)) [
  | inl p ↦ ground (arith, agree v4 m n y z)
  | inr p ↦ ground (arith, agree v4 n m x z)
]
meet_in v6 v6 v6 m n x y z h k = elim (Bool-cases (leb m n)) [
  | inl p ↦ ground (arith, agree v6 m n y z)
  | inr p ↦ ground (arith, agree v6 n m x z)
]
meet_in v4 v4 v6 m n x y z h k = ground arith
meet_in v6 v6 v4 m n x y z h k = ground arith
meet_in v4 v6 v4 m n x y z h k = ground arith
meet_in v4 v6 v6 m n x y z h k = ground arith
meet_in v6 v4 v4 m n x y z h k = ground arith
meet_in v6 v4 v6 m n x y z h k = ground arith

-- Two networks that share an address overlap: one of them contains the other's first address.
overlaps-contains :
    (a b : Prefix) (ip : Addr)
    → unzoned a.addr ≡ true
    → unzoned b.addr ≡ true
    → contains a ip ≡ true
    → contains b ip ≡ true
    → overlaps a b ≡ true
unfolding contains
overlaps-contains a b ip u w h k = ground (
  arith,
  meet_in a.addr.family b.addr.family ip.family a.bits b.bits a.addr.value b.addr.value ip.value,
)

abbrev AllUnzoned : List Prefix → Type 0
AllUnzoned ns = All (λ n. unzoned n.addr ≡ true) ns

clash_one :
    (a : Prefix) (others : List Prefix) (ip : Addr)
    → unzoned a.addr ≡ true
    → AllUnzoned others
    → contains a ip ≡ true
    → any (λ b. contains b ip) others ≡ true
    → any (overlaps a) others ≡ true
clash_one a [] ip u w h k = k
clash_one a (b ∷ others) ip u (w, ws) h k =
    ground (arith, overlaps-contains a b ip u w h, clash_one a others ip u ws h)

clash_any :
    (news others : List Prefix) (ip : Addr)
    → AllUnzoned news
    → AllUnzoned others
    → any (λ a. contains a ip) news ≡ true
    → any (λ b. contains b ip) others ≡ true
    → any (λ a. any (overlaps a) others) news ≡ true
clash_any [] others ip u w h k = h
clash_any (a ∷ news) others ip (u, us) w h k =
    ground (arith, clash_one a others ip u w, clash_any news others ip us w)

-- No address is in a node's ranges and in the given ones.
abbrev pub Separate : (Chars → Option Prefix) → List Chars → List Chars → Type 0
Separate parse_cidr xs ys =
    (ip : Addr) → serves parse_cidr (λ t. none) xs ip && serves parse_cidr (λ t. none) ys ip ≡ false

-- Nodes that share an address have the same id.
abbrev pub Apart : (Chars → Option Prefix) → ScannerNode → ScannerNode → Type 0
Apart parse_cidr n m =
    (ip : Addr)
    → serves parse_cidr (λ t. none) n.cidrs ip ≡ true
    → serves parse_cidr (λ t. none) m.cidrs ip ≡ true
    → n.id ≡ m.id

abbrev pub Disjoint : (Chars → Option Prefix) → List ScannerNode → Type 0
Disjoint parse_cidr [] = Unit
Disjoint parse_cidr (n ∷ nodes) = All (Apart parse_cidr n) nodes × Disjoint parse_cidr nodes

-- The ranges parse, and the id is not the one that excludes no node.
abbrev pub Stored : (Chars → Option Prefix) → ScannerNode → Type 0
Stored parse_cidr n =
    ((ns : List Prefix) × (parse_cidrs parse_cidr n.cidrs ≡ some ns)) × (str_eq n.id "" ≡ false)

module _ (parse_cidr : Chars → Option Prefix)
    (network : (s : Chars) (p : Prefix) → parse_cidr s ≡ some p → unzoned p.addr ≡ true) where
  parse_cons :
      (o : Option Prefix) (r : Option (List Prefix)) (ns : List Prefix)
      → cons_parsed parse_cidr o r ≡ some ns
      → (n : Prefix) × (rest : List Prefix) × (o ≡ some n) × (r ≡ some rest) × (n ∷ rest ≡ ns)
  parse_cons none r ns h = ground arith
  parse_cons (some n) none ns h = ground arith
  parse_cons (some n) (some rest) ns h = (n, rest, refl, refl, ground arith)

  serves-parse_cidrs :
      (cidrs : List Chars) (ns : List Prefix) (ip : Addr)
      → parse_cidrs parse_cidr cidrs ≡ some ns
      → serves parse_cidr (λ t. none) cidrs ip ≡ any (λ b. contains b ip) ns
  unfolding parse_cidrs serves cidr_contains
  serves-parse_cidrs [] ns ip h = let e : [] ≡ ns = ground arith in rw (← e) refl
  serves-parse_cidrs (c ∷ cidrs) ns ip h =
      let (n, rest, a, b, e) =
        parse_cons (parse_cidr (trim_space c)) (parse_cidrs parse_cidr cidrs) ns h in
      rw (← e, a, serves-parse_cidrs cidrs rest ip b) refl

  parse_cidrs_unzoned :
      (cidrs : List Chars) (ns : List Prefix)
      → parse_cidrs parse_cidr cidrs ≡ some ns
      → AllUnzoned ns
  unfolding parse_cidrs
  parse_cidrs_unzoned [] ns h = let e : [] ≡ ns = ground arith in rw (← e) tt
  parse_cidrs_unzoned (c ∷ cidrs) ns h =
      let (n, rest, a, b, e) =
        parse_cons (parse_cidr (trim_space c)) (parse_cidrs parse_cidr cidrs) ns h in
      rw (← e) (network (trim_space c) n a, parse_cidrs_unzoned cidrs rest b)

  clash-Separate :
      (xs ys : List Chars) (news others : List Prefix)
      → parse_cidrs parse_cidr xs ≡ some news
      → parse_cidrs parse_cidr ys ≡ some others
      → any (λ a. any (overlaps a) others) news ≡ false
      → Separate parse_cidr xs ys
  clash-Separate xs ys news others h k c ip =
      rw (serves-parse_cidrs xs news ip h, serves-parse_cidrs ys others ip k)
        (ground (
          arith,
          clash_any news others ip (parse_cidrs_unzoned xs news h)
              (parse_cidrs_unzoned ys others k),
        ))

  pub clashes-Separate :
      (exclude_id : String) (xs : List Chars) (news : List Prefix) (nodes : List ScannerNode)
      → parse_cidrs parse_cidr xs ≡ some news
      → All (Stored parse_cidr) nodes
      → clashes parse_cidr exclude_id news nodes ≡ false
      → All (λ m. str_eq m.id exclude_id ≡ false → Separate parse_cidr xs m.cidrs) nodes
  unfolding clashes
  clashes-Separate exclude_id xs news [] h s c = tt
  clashes-Separate exclude_id xs news (m ∷ nodes) h (((others, k), i), s) c =
      elim (Bool-cases (str_eq m.id exclude_id)) [
        | inl p ↦ (
          λ q. ground (arith, p, q),
          clashes-Separate exclude_id xs news nodes h s (rw (clashes, p) at c),
        )
        | inr p ↦
            let d : clash parse_cidr news (some others) || clashes parse_cidr exclude_id news nodes
                ≡ false =
              rw (clashes, p, k) at c in
            (
              λ q. clash-Separate xs m.cidrs news others h k (ground (arith, d)),
              clashes-Separate exclude_id xs news nodes h s (ground (arith, d)),
            )
      ]
