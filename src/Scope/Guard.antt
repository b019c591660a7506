-- ===== src/Scope/Guard.antt =====
-- What the guardrail lets through.
use native.Mathlib.Nat.{div-div-eq-div-mul, pow-suc, mul_assoc}
use nuclei_security_center.Common.{
  ℕ, zero, suc, ap, ◌+◌, ◌-◌, ◌*◌, ◌/◌, ◌^◌, ◌≤◌, ◌≡◌, ◌↔◌, ◌∙◌, sym, refl, List, [], ◌∷◌, Option,
  none, some, Bool, true, false, ◌&&◌, leb, ◌==◌, if◌then◌else◌, Chars, any, all, arith, inl, inr,
  Option-cases,
}
use nuclei_security_center.Scope.{
  Family, v4, v6, width, same_family, Addr, Prefix, block, contains, Asset, asset_host, asset_ip,
  asset_cidr, covers, in_scope, parsed, is_bad, keep_bad, out_of_scope_hosts, unzoned,
}

-- One approved text covers one target's asset.
abbrev covers_parsed : Asset → Option Asset → Bool
covers_parsed t none = false
covers_parsed t (some a) = covers a t

-- A target is allowed if both it and some approved entry parse, and the entry covers it.
abbrev allowed_parsed : (Chars → Option Asset) → List Chars → Option Asset → Bool
allowed_parsed parse_asset approved none = false
allowed_parsed parse_asset approved (some t) = any (λ a. covers_parsed t (parse_asset a)) approved

abbrev pub allowed : (Chars → Option Asset) → List Chars → Chars → Bool
allowed parse_asset approved t = allowed_parsed parse_asset approved (parse_asset t)

module _ (parse_asset : Chars → Option Asset) (approved : List Chars) where
  in_scope-parsed :
      (t : Asset) (entries : List Chars)
      → in_scope t (parsed parse_asset entries) ≡ any (λ a. covers_parsed t (parse_asset a)) entries
  unfolding in_scope parsed
  in_scope-parsed t [] = refl
  in_scope-parsed t (a ∷ entries) = elim (Option-cases (parse_asset a)) [
    | inl e ↦ rw (parsed, e) (in_scope-parsed t entries)
    | inr (pa, e) ↦ rw (parsed, e, in_scope-parsed t entries) refl
  ]

  is_bad-allowed :
      (o : Option Asset)
      → is_bad (parsed parse_asset approved) o
        ≡ (if allowed_parsed parse_asset approved o then false else true)
  unfolding is_bad
  is_bad-allowed none = refl
  is_bad-allowed (some t) = rw (in_scope-parsed t approved) refl

  keep_bad-nil :
      (targets : List Chars)
      → (keep_bad parse_asset (parsed parse_asset approved) targets ≡ [])
        ↔ (all (allowed parse_asset approved) targets ≡ true)
  unfolding keep_bad
  keep_bad-nil [] = ground arith
  keep_bad-nil (t ∷ targets) = ground (arith, is_bad-allowed (parse_asset t), keep_bad-nil targets)

  -- No target is reported out of scope exactly if every target parses and is covered by an approved
  -- entry that parses: without approved entries, every target is rejected.
  pub out_of_scope_hosts_exact :
      (targets : List Chars)
      → (out_of_scope_hosts parse_asset approved targets ≡ [])
        ↔ (all (allowed parse_asset approved) targets ≡ true)
  unfolding out_of_scope_hosts
  out_of_scope_hosts_exact targets = keep_bad-nil targets

two-pow-add : (m n : ℕ) → 2 ^ (m + n) ≡ 2 ^ m * 2 ^ n
two-pow-add m zero =
    let move : m + 0 ≡ m = omega arith in
    let one : 2 ^ m * 2 ^ 0 ≡ 2 ^ m = omega arith in ap (λ k. 2 ^ k) move ∙ sym one
two-pow-add m (suc n) =
    let move : m + suc n ≡ suc (m + n) = omega arith in
    rw (move, pow-suc 2 (m + n), pow-suc 2 n, two-pow-add m n) (mul_assoc (2 ^ m) (2 ^ n) 2)

width_split :
    (f : Family) (m n : ℕ) → m ≤ n → block f m ≡ block f n * 2 ^ (width f - m - (width f - n))
width_split f m n h =
    rw (← two-pow-add (width f - n) (width f - m - (width f - n))) (ap (λ k. 2 ^ k) (omega arith))

-- Addresses that agree in more leading bits agree in fewer.
pub agree :
    (f : Family) (m n x y : ℕ)
    → m ≤ n
    → x / block f n ≡ y / block f n
    → x / block f m ≡ y / block f m
agree f m n x y h e =
    let k = 2 ^ (width f - m - (width f - n)) in
    rw
      (
        width_split f m n h,
        ← div-div-eq-div-mul x (block f n) k,
        ← div-div-eq-div-mul y (block f n) k,
        e,
      )
      refl

same_block :
    (f g i : Family) (m n x y z : ℕ) (u w : Bool)
    → w && (same_family g i && (y / block g n == z / block g n)) ≡ true
    → same_family f g && (leb m n && (u && (same_family f g && (x / block f m == y / block f m))))
      ≡ true
    → w && (same_family f i && (x / block f m == z / block f m)) ≡ true
same_block v4 v4 v4 m n x y z u w h e = ground (arith, agree v4 m n y z)
same_block v6 v6 v6 m n x y z u w h e = ground (arith, agree v6 m n y z)
same_block v4 v4 v6 m n x y z u w h e = ground arith
same_block v6 v6 v4 m n x y z u w h e = ground arith
same_block v4 v6 i m n x y z u w h e = ground arith
same_block v6 v4 i m n x y z u w h e = ground arith

-- An address of a network that an approved network covers is covered by it.
covers_trans :
    (entry : Asset) (t : Prefix) (a : Addr)
    → contains t a ≡ true
    → covers entry (asset_cidr t) ≡ true
    → covers entry (asset_ip a) ≡ true
unfolding covers contains
covers_trans (asset_cidr p) t a h e =
    same_block p.addr.family t.addr.family a.family p.bits t.bits p.addr.value t.addr.value a.value
      (unzoned t.addr) (unzoned a) h e
covers_trans (asset_host n) t a h e = ground arith
covers_trans (asset_ip b) t a h e = ground arith

-- If a network is in scope, so is every address in it.
pub in_scope-cidr :
    (t : Prefix) (a : Addr) (approved : List Asset)
    → contains t a ≡ true
    → in_scope (asset_cidr t) approved ≡ true
    → in_scope (asset_ip a) approved ≡ true
unfolding in_scope
in_scope-cidr t a [] h e = e
in_scope-cidr t a (p ∷ approved) h e =
    ground (arith, covers_trans p t a, in_scope-cidr t a approved h)
