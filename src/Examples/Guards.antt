-- ===== src/Examples/Guards.antt =====
-- Runs of the scope guardrail and of the lifecycle identity.
use nuclei_security_center.Common.{◌≡◌, ◌↔◌, refl, true, some, none, Option, [], ◌∷◌, Chars, all}
use nuclei_security_center.Scope.{
  v4, Addr, Prefix, contains, Asset, asset_host, asset_ip, asset_cidr, covers, in_scope,
  out_of_scope_hosts,
}
use nuclei_security_center.Scope.Guard.{allowed, out_of_scope_hosts_exact, in_scope-cidr}
use nuclei_security_center.Identity.{dedup_key, sanitize_key_component}
use nuclei_security_center.Identity.Keys.{dedup_key-injective}

-- 10.0.1.0/24 within 10.0.0.0/16.
abbrev subnet : Prefix
subnet = record { addr = record { family = v4; value = 167772416; zone = [] }; bits = 24 }

abbrev network : Prefix
network = record { addr = record { family = v4; value = 167772160; zone = [] }; bits = 16 }

abbrev host : Addr
host = record { family = v4; value = 167772421; zone = [] }

in_scope-cidr_example : in_scope (asset_ip host) (asset_host [] ∷ asset_cidr network ∷ []) ≡ true
unfolding contains in_scope covers
in_scope-cidr_example =
    in_scope-cidr subnet host (asset_host [] ∷ asset_cidr network ∷ []) refl refl

-- A parser that takes every text for a host name but the empty one.
abbrev as_host : Chars → Option Asset
as_host [] = none
as_host (c ∷ s) = some (asset_host (c ∷ s))

out_of_scope_hosts_exact_example :
    (out_of_scope_hosts as_host ((97 ∷ []) ∷ [] ∷ []) ((97 ∷ []) ∷ (98 ∷ []) ∷ []) ≡ [])
    ↔ (all (allowed as_host ((97 ∷ []) ∷ [] ∷ [])) ((97 ∷ []) ∷ (98 ∷ []) ∷ []) ≡ true)
out_of_scope_hosts_exact_example =
    out_of_scope_hosts_exact as_host ((97 ∷ []) ∷ [] ∷ []) ((97 ∷ []) ∷ (98 ∷ []) ∷ [])

-- A discriminator of one letter.
abbrev matcher : Chars
matcher = 100 ∷ []

-- A separator in the matched-at value is dropped.
dedup_key-injective_example :
    (sanitize_key_component (97 ∷ []) ≡ sanitize_key_component (97 ∷ []))
    × (sanitize_key_component (98 ∷ 31 ∷ 99 ∷ []) ≡ sanitize_key_component (98 ∷ 99 ∷ []))
    × (sanitize_key_component matcher ≡ sanitize_key_component matcher)
    × ((matcher ≡ []) ↔ (matcher ≡ []))
unfolding dedup_key sanitize_key_component
dedup_key-injective_example =
    dedup_key-injective (97 ∷ []) (98 ∷ 31 ∷ 99 ∷ []) matcher (97 ∷ []) (98 ∷ 99 ∷ []) matcher refl
