-- ===== src/Auth/Origin.antt =====
-- The gates against cross-site requests, internal/backend/csrf.go. `url.Parse` and `strings.ToLower` are
-- parameters.
use nuclei_security_center.Common.{
  Bool, true, false, not, ◌&&◌, ◌||◌, Option, none, some, List, [], ◌∷◌, ◌++◌, chars_eq,
  if◌then◌else◌, Chars, codes, reverse, ◌==◌, is_some,
}
use nuclei_security_center.Login.Clients.{trim_space}
use nuclei_security_center.Auth.{Request, bearer_token, equal_fold}

-- The parts of a parsed URL that are read; `has_user` says that there is user information.
pub record Url : Type 0 where
  pub scheme : Chars
  pub host : Chars
  pub hostname : Chars
  pub port : Chars
  pub has_user : Bool
  pub opaque : Chars
  pub path : Chars
  pub raw_query : Chars
  pub fragment : Chars

abbrev is_blank : Chars → Bool
is_blank [] = true
is_blank (c ∷ s) = false

-- `strings.TrimSuffix(s, ".")`
abbrev without_dot : Chars → Chars
without_dot [] = []
without_dot (c ∷ s) = if c == 46 then reverse s else reverse (c ∷ s)

unfoldable pub trim_dot : Chars → Chars
trim_dot s = without_dot (reverse s)

unfoldable pub has_colon : Chars → Bool
has_colon [] = false
has_colon (c ∷ s) = (c == 58) || has_colon s

unfoldable pub is_default_port : Chars → Chars → Bool
is_default_port scheme port =
    (chars_eq scheme (codes "http") && chars_eq port (codes "80"))
    || (chars_eq scheme (codes "https") && chars_eq port (codes "443"))

-- The host as it is compared: an IPv6 address in brackets, then the port if it is not the default.
unfoldable pub host_port : Chars → Chars → Chars
unfolding has_colon
host_port host port =
    let name = if has_colon host then codes "[" ++ (host ++ codes "]") else host in
    if is_blank port then name else name ++ (codes ":" ++ port)

module _ (parse_url : Chars → Option Url) (to_lower : Chars → Chars) where
  unfoldable pub origin_of_host : Chars → Chars → Chars → Option Chars
  unfolding is_default_port host_port
  origin_of_host scheme host port =
      if is_blank host
      then none
      else some (
          scheme
          ++ (codes "://" ++ host_port host (if is_default_port scheme port then [] else port)))

  unfoldable pub origin_of_url : Bool → Url → Option Chars
  unfolding origin_of_host trim_dot
  origin_of_url configured u =
      if is_blank u.scheme
        || (is_blank u.host
            || (u.has_user
                || (not (is_blank u.opaque)
                    || (not (is_blank u.raw_query) || not (is_blank u.fragment)))))
      then none
      else if not configured && (not (is_blank u.path) && not (chars_eq u.path (codes "/")))
      then none
      else let scheme = to_lower u.scheme in
        if not (chars_eq scheme (codes "http")) && not (chars_eq scheme (codes "https"))
        then none
        else origin_of_host scheme (trim_dot (to_lower u.hostname)) u.port

  unfoldable pub canonical_origin : Chars → Bool → Option Chars
  unfolding trim_space origin_of_url
  canonical_origin raw configured = elim (parse_url (trim_space raw)) [
    | none ↦ none
    | some u ↦ origin_of_url configured u
  ]

  abbrev same_site : Request → Chars → Bool
  same_site r value = equal_fold (trim_space r.sec_fetch_site) value

  abbrev same_as : Option Chars → Chars → Bool
  same_as none expected = false
  same_as (some origin) expected = chars_eq origin expected

  abbrev origin_matches : Request → List Chars → Chars → Bool
  origin_matches r [] expected = same_site r (codes "same-origin")
  origin_matches r (o ∷ []) expected =
      if same_as (canonical_origin o false) expected
      then (if not (is_blank (trim_space r.sec_fetch_site))
            && not (same_site r (codes "same-origin"))
          then false
          else true)
      else false
  origin_matches r (o ∷ p ∷ os) expected = false

  unfoldable pub same_origin_request : Request → Chars → Bool
  unfolding canonical_origin
  same_origin_request r configured = elim (canonical_origin configured true) [
    | none ↦ false
    | some expected ↦ origin_matches r r.origins expected
  ]

  unfoldable pub mutation_origin_allowed : Bool → Chars → Request → Bool
  unfolding same_origin_request bearer_token
  mutation_origin_allowed enabled public_origin r =
      if not enabled || is_some (bearer_token r) then true else same_origin_request r public_origin

  abbrev no_origin : Request → Bool
  no_origin r = elim r.origins [ [] ↦ true | o ∷ os ↦ false ]

  unfoldable pub logout_redirect_origin_allowed : Bool → Chars → Request → Bool
  unfolding same_origin_request bearer_token canonical_origin
  logout_redirect_origin_allowed enabled public_origin r =
      if not enabled || is_some (bearer_token r)
      then true
      else if same_origin_request r public_origin
      then true
      else if no_origin r && same_site r (codes "none")
      then is_some (canonical_origin public_origin true)
      else false
