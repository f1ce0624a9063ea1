-- ===== src/TokenEndpoint/Checks.antt =====
-- pkg/openlore/tokenendpoint.go: the checks of a code before it is exchanged.
use open_lore.Prelude.{
  ◌≡◌, sym, ◌≢◌, ◌⊎◌, inl, inr, true, false, none, some, [], arith, ◌==◌, Bool-cases, Option-cases,
  Text, text, eq_iff, Result, err, ok,
}
use open_lore.AuthCode.{
  CimdClient, OAuthClient, baseline_client_auth, AuthCode, verify_pkce, same_resource_identifier,
}
use open_lore.TokenEndpoint.{
  Form, form_get, TokenConfig, code_client_auth, binding_error, is_other_resource,
}

-- The PKCE binding of a code, where it has one, is met by the request.
abbrev pub MeetsBinding : TokenConfig → Form → AuthCode → Type 0
MeetsBinding t form c =
    (c.code_challenge ≡ [])
    ⊎ ((form_get (text "redirect_uri") form ≡ c.redirect_uri)
        × (form_get (text "code_verifier") form ≢ [])
        × (verify_pkce t.s256 c.code_challenge_method (form_get (text "code_verifier") form)
              c.code_challenge
            ≡ true))

pub binding_error-none :
    (t : TokenConfig) (form : Form) (c : AuthCode)
    → binding_error t form c ≡ none
    → MeetsBinding t form c
unfolding binding_error
binding_error-none t form c h = elim (Bool-cases (c.code_challenge == [])) [
  | inl e ↦ inl ((eq_iff _ _).0 e)
  | inr n ↦ inr (
    (eq_iff (form_get (text "redirect_uri") form) c.redirect_uri).0 (ground arith),
    λ e. ground (arith, eq_iff (form_get (text "code_verifier") form) []),
    ground arith,
  )
]

-- Where the request and the code both name a resource, it is the same one.
abbrev pub AsksResource : TokenConfig → Form → AuthCode → Type 0
AsksResource t form c =
    (form_get (text "resource") form ≡ [])
    ⊎ (c.resource ≡ [])
    ⊎ (same_resource_identifier t.parse_url (form_get (text "resource") form) c.resource ≡ true)

pub is_other_resource-false :
    (t : TokenConfig) (form : Form) (c : AuthCode)
    → is_other_resource t form c ≡ false
    → AsksResource t form c
unfolding is_other_resource
is_other_resource-false t form c h = elim (Bool-cases (form_get (text "resource") form == [])) [
  | inl e ↦ inl ((eq_iff (form_get (text "resource") form) []).0 e)
  | inr e ↦ inr (elim (Bool-cases (c.resource == [])) [
    | inl f ↦ inl ((eq_iff c.resource []).0 f)
    | inr f ↦ inr (ground arith)
  ])
]

-- The metadata of the client authenticates the request, where it has any, and gives the level of
-- authentication; any other client has the level of its registration.
abbrev pub IsAuthenticated : TokenConfig → Form → OAuthClient → Text → Type 0
IsAuthenticated t form client client_auth =
    ((client.cimd ≡ none) × (client_auth ≡ baseline_client_auth t.parse_url client))
    ⊎ ((metadata : CimdClient) × (authenticate : Form → CimdClient → Result Text Text)
        × (client.cimd ≡ some metadata)
        × (t.authenticate ≡ some authenticate)
        × (authenticate form metadata ≡ ok client_auth))

pub code_client_auth-ok :
    (t : TokenConfig) (form : Form) (client : OAuthClient) (client_auth : Text)
    → code_client_auth t form client ≡ ok client_auth
    → IsAuthenticated t form client client_auth
unfolding code_client_auth
code_client_auth-ok t form client client_auth h = elim (Option-cases client.cimd) [
  | inl c ↦ inl (c, sym (injected (rw (c, code_client_auth) at h)))
  | inr (metadata, c) ↦ elim (Option-cases t.authenticate) [
    | inl a ↦ absurd (refused (rw (c, a, code_client_auth) at h))
    | inr (authenticate, a) ↦ inr (metadata, authenticate, c, a, rw (c, a, code_client_auth) at h)
  ]
]
  where
    injected :
        ◌≡◌ {A = Result Text Text} (ok (baseline_client_auth t.parse_url client)) (ok client_auth)
        → baseline_client_auth t.parse_url client ≡ client_auth
    injected q = cc

    refused : {z : Text} → ◌≡◌ {A = Result Text Text} (err z) (ok client_auth) → ⊥
    refused q = cc
