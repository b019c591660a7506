-- ===== src/Scope.antt =====
-- The scope guardrail, internal/backend/scope.go: which targets an ad-hoc scan may name. How the
-- standard library reads an address, a prefix or a URL is a parameter, `parse_asset`'s result on a
-- text; addresses and prefixes are what `netip` says of them.
pub mod Guard
use nuclei_security_center.Common.{
  ℕ, ◌/◌, ◌-◌, ◌^◌, List, [], ◌∷◌, ◌++◌, Option, none, some, Bool, true, false, ◌&&◌, ◌||◌, leb,
  ◌==◌, if◌then◌else◌, Chars, chars_eq, any,
}

-- `netip.Addr`: the family and the address as a number; an IPv4-mapped IPv6 address is of the family
-- `v6`.
pub data Family : Type 0 where
  v4 v6 : Family

abbrev pub width : Family → ℕ
width v4 = 32
width v6 = 128

abbrev pub same_family : Family → Family → Bool
same_family v4 v4 = true
same_family v4 v6 = false
same_family v6 v4 = false
same_family v6 v6 = true

pub record Addr : Type 0 where
  pub family : Family
  pub value : ℕ
  pub zone : Chars

-- A masked `netip.Prefix`.
pub record Prefix : Type 0 where
  pub addr : Addr
  pub bits : ℕ

-- The number of addresses that share a prefix of `bits` bits.
abbrev pub block : Family → ℕ → ℕ
block f bits = 2 ^ (width f - bits)

abbrev pub unzoned : Addr → Bool
unzoned a = chars_eq a.zone []

-- `Prefix.Contains`: no zone, the same family and the same leading bits.
unfoldable pub contains : Prefix → Addr → Bool
contains p a =
    unzoned a
    && (same_family p.addr.family a.family
        && (p.addr.value / block p.addr.family p.bits == a.value / block p.addr.family p.bits))

pub data Asset : Type 0 where
  asset_host : Chars → Asset
  asset_ip : Addr → Asset
  asset_cidr : Prefix → Asset

-- The loop's body for one approved entry.
unfoldable pub covers : Asset → Asset → Bool
unfolding contains
covers (asset_ip a) (asset_ip t) =
    same_family a.family t.family && ((a.value == t.value) && chars_eq a.zone t.zone)
covers (asset_cidr p) (asset_ip t) = contains p t
covers (asset_host h) (asset_ip t) = false
covers (asset_host h) (asset_host t) = chars_eq h t
covers (asset_ip a) (asset_host t) = false
covers (asset_cidr p) (asset_host t) = false
covers (asset_cidr p) (asset_cidr t) =
    same_family p.addr.family t.addr.family && (leb p.bits t.bits && contains p t.addr)
covers (asset_host h) (asset_cidr t) = false
covers (asset_ip a) (asset_cidr t) = false

unfoldable pub in_scope : Asset → List Asset → Bool
unfolding covers
in_scope t [] = false
in_scope t (a ∷ approved) = covers a t || in_scope t approved

unfoldable pub is_bad : List Asset → Option Asset → Bool
unfolding in_scope
is_bad approved none = true
is_bad approved (some pt) = if in_scope pt approved then false else true

module _ (parse_asset : Chars → Option Asset) where
  -- The approved entries that parse.
  unfoldable pub parsed : List Chars → List Asset
  parsed [] = []
  parsed (a ∷ approved) =
      let rest = parsed approved in elim (parse_asset a) [ none ↦ rest | some pa ↦ pa ∷ rest ]

  unfoldable pub keep_bad : List Asset → List Chars → List Chars
  unfolding is_bad
  keep_bad approved [] = []
  keep_bad approved (t ∷ targets) =
      let rest = keep_bad approved targets in
      if is_bad approved (parse_asset t) then t ∷ rest else rest

  unfoldable pub out_of_scope_hosts : List Chars → List Chars → List Chars
  unfolding parsed keep_bad
  out_of_scope_hosts approved targets = keep_bad (parsed approved) targets
