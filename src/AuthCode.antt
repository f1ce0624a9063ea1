-- ===== src/AuthCode.antt =====
-- pkg/openlore/tokenendpoint.go: the store of authorization codes and the PKCE check, with what the
-- token endpoint asks of clients and resources (pkg/openlore/clientstore.go, pkg/openlore/authorize.go).
-- Times are nanoseconds. `parse_url` is Go's `url.Parse`; `s256` is the base64url of the SHA-256.
pub mod Once
use open_lore.Prelude.{
  ℕ, ◌+◌, Bool, true, false, not, ◌&&◌, ◌||◌, Option, none, some, List, [], ◌==◌, if◌then◌else◌,
  ltb, nat_eq, length, any, Text, text, lookup, put, delete,
}

-- The fields of Go's `url.URL` that are read; `host_name` is `Hostname()`.
pub record Url : Type 0 where
  pub scheme : Text
  pub host : Text
  pub host_name : Text
  pub opaque : Text
  pub has_user : Bool
  pub raw_query : Text
  pub fragment : Text
  pub escaped_path : Text

pub record CimdClient : Type 0 where
  pub client_id : Text
  pub client_origin : Text

-- The fields that the endpoint reads.
pub record OAuthClient : Type 0 where
  pub client_id : Text
  pub redirect_uris : List Text
  pub cimd : Option CimdClient

pub record AuthCode : Type 0 where
  pub subject : Text
  pub actor : Text
  pub scope : Text
  pub expires : ℕ
  pub client_id : Text
  pub client : OAuthClient
  pub resource : Text
  pub redirect_uri : Text
  pub code_challenge : Text
  pub code_challenge_method : Text

abbrev pub Codes : Type 0
Codes = List (Text × AuthCode)

-- newAuthCodeStore: 60 seconds
abbrev pub code_ttl : ℕ
code_ttl = 60_000_000_000

-- Issue, with the random code and the time
unfoldable pub issue_code : Text → ℕ → AuthCode → Codes → Codes
issue_code code now c codes = put code (record c { expires = now + code_ttl }) codes

-- Consume
unfoldable pub consume : Text → ℕ → Codes → Option AuthCode × Codes
consume code now codes = elim (lookup code codes) [
  | none ↦ (none, codes)
  | some c ↦ (if ltb c.expires now then none else some c, delete code codes)
]

-- verifyPKCE
unfoldable pub verify_pkce : (Text → Text) → Text → Text → Text → Bool
verify_pkce s256 method verifier challenge =
    if method == [] || method == text "S256"
    then s256 verifier == challenge
    else if method == text "plain"
    then verifier == challenge
    else false

-- The tests on one of the two resource identifiers.
is_absolute : Url → Bool
is_absolute u = not (u.scheme == []) && not (u.host == []) && u.opaque == [] && not u.has_user

root_path : Text → Text
root_path p = if p == [] then text "/" else p

same_origin : Url → Url → Bool
unfolding is_absolute root_path
same_origin a b =
    is_absolute a
    && is_absolute b
    && a.scheme == b.scheme
    && a.host == b.host
    && a.raw_query == b.raw_query
    && a.fragment == b.fragment
    && root_path a.escaped_path == root_path b.escaped_path

-- sameResourceIdentifier
unfoldable pub same_resource_identifier : (Text → Option Url) → Text → Text → Bool
unfolding same_origin
same_resource_identifier parse_url a b = if a == b then true else elim (parse_url a) [
  | none ↦ false
  | some au ↦ elim (parse_url b) [ none ↦ false | some bu ↦ same_origin au bu ]
]

-- parseRedirectURI
parse_redirect_uri : (Text → Option Url) → Text → Option Url
parse_redirect_uri parse_url raw = if raw == [] then none else elim (parse_url raw) [
  | none ↦ none
  | some u ↦ if u.scheme == [] || not (u.fragment == []) then none else some u
]

is_domain : (Text → Option Url) → Text → Bool
unfolding parse_redirect_uri
is_domain parse_url redirect = elim (parse_redirect_uri parse_url redirect) [
  | none ↦ false
  | some u ↦
      u.scheme == text "https"
      && not (u.host == [])
      && not (u.host_name == text "localhost")
      && not (u.host_name == text "127.0.0.1")
      && not (u.host_name == text "::1")
]

-- baselineClientAuth
unfoldable pub baseline_client_auth : (Text → Option Url) → OAuthClient → Text
unfolding is_domain
baseline_client_auth parse_url client =
    if client.client_id == [] && nat_eq (length client.redirect_uris) 0
    then []
    else elim client.cimd [
      | some c ↦ text "cimd"
      | none ↦
          if any (is_domain parse_url) client.redirect_uris
          then text "dcr-domain"
          else text "dcr-local"
    ]
