-- ===== src/TokenEndpoint.antt =====
-- pkg/openlore/tokenendpoint.go: the token endpoint. A handler takes the form of the request, the time,
-- the random tokens that it may draw and what the disk answers to the one write of the refresh store; it
-- gives the response and the new state. The issuer, the exchanges of assertions and delegations, the
-- resolver of client metadata and the authentication of clients are parameters.
pub mod Grants
pub mod Checks
pub mod Code
mod Tests
use open_lore.Prelude.{
  ℕ, ◌+◌, Bool, false, not, ◌&&◌, Option, none, some, List, [], ◌∷◌, ◌++◌, ◌==◌, if◌then◌else◌,
  Text, text, Result, lookup, err, ok,
}
use open_lore.Identity.{scope_full}
use open_lore.AuthCode.{
  Url, CimdClient, OAuthClient, AuthCode, Codes, consume, verify_pkce, same_resource_identifier,
  baseline_client_auth,
}
use open_lore.RefreshStore.{
  RefreshToken, RefreshRotation, RefreshError, Tokens, save, rotate, revoke_chain,
}

abbrev pub Form : Type 0
Form = List (Text × Text)

-- r.Form.Get
unfoldable pub form_get : Text → Form → Text
form_get k form = elim (lookup k form) [ none ↦ [] | some v ↦ v ]

-- Attribution, with the fields that the endpoint sets.
pub record Grantee : Type 0 where
  pub principal : Text
  pub actor : Text
  pub client_auth : Text

pub data WifError : Type 0 where
  wif_disabled unknown_identity invalid_scope not_verified : WifError

-- The fields of tokenEndpoint, and Go's packages.
pub record TokenConfig : Type 0 where
  pub mint : Grantee → Text → ℕ → Option (Text × ℕ)
  pub access_ttl : ℕ
  pub refresh_ttl : ℕ
  pub wif : Option (Text → Result WifError (Text × Text × ℕ))
  pub delegation : Option (Text → Text → Option (Grantee × Text × ℕ))
  pub resolve : Option (Text → Option CimdClient)
  pub authenticate : Option (Form → CimdClient → Result Text Text)
  pub has_audit : Bool
  pub has_delegate_auth : Bool
  pub parse_url : Text → Option Url
  pub s256 : Text → Text

-- An audit event: its outcome, chain and client.
pub record AuditEvent : Type 0 where
  pub event_type : Text
  pub grantee : Grantee
  pub outcome : Text
  pub chain_id : Text
  pub client_id : Text

pub record Endpoint : Type 0 where
  pub codes : Codes
  pub tokens : Tokens
  pub audits : List AuditEvent
  pub delegate_auths : List Grantee

-- What a request draws from outside.
pub record Chance : Type 0 where
  pub now : ℕ
  pub fresh : Text
  pub fresh_chain : Text
  pub disk : Option Text

-- The response: an error with its status and code, or an access token, a refresh token and the scope.
pub data Response : Type 0 where
  oauth_error : ℕ → Text → Response
  token_response : Text → Text → Text → ℕ → Response
  revoked : Response

pub or_full : Text → Text
or_full scope = if scope == [] then scope_full else scope

-- issue
pub issue : TokenConfig → Chance → Grantee → Text → Text → Text → Endpoint → Response × Endpoint
unfolding or_full
issue t x who scope chain client st = elim (t.mint who (or_full scope) t.access_ttl) [
  | none ↦ (oauth_error 500 (text "server_error"), st)
  | some (access, exp) ↦
      let (saved, tokens) =
        save x.disk
          (record {
            token = x.fresh;
            subject = who.principal;
            actor = who.actor;
            client_id = client;
            client_auth = who.client_auth;
            scope = or_full scope;
            chain_id = chain;
            expires_at = x.now + t.refresh_ttl;
            used = false;
            rotated_at = 0;
            replaced_by = [];
          })
          st.tokens in
      (
        elim saved [
          | err e ↦ oauth_error 500 (text "server_error")
          | ok u ↦ token_response access x.fresh (or_full scope) exp
        ],
        record st { tokens = tokens },
      )
]

-- issueAccessOnly
pub issue_access_only : TokenConfig → Grantee → Text → ℕ → Endpoint → Response × Endpoint
unfolding or_full
issue_access_only t who scope ttl st = elim (t.mint who (or_full scope) ttl) [
  | none ↦ (oauth_error 500 (text "server_error"), st)
  | some (access, exp) ↦ (token_response access [] (or_full scope) exp, st)
]

-- The authentication of the client of a code.
pub code_client_auth : TokenConfig → Form → OAuthClient → Result Text Text
code_client_auth t form client = elim client.cimd [
  | none ↦ ok (baseline_client_auth t.parse_url client)
  | some metadata ↦ elim t.authenticate [
    | none ↦ err (text "client authentication unavailable")
    | some authenticate ↦ authenticate form metadata
  ]
]

-- The checks of a code's PKCE and redirect binding: the error code, if one fails.
pub binding_error : TokenConfig → Form → AuthCode → Option Text
binding_error t form c =
    if c.code_challenge == []
    then none
    else if not (form_get (text "redirect_uri") form == c.redirect_uri)
    then some (text "invalid_grant")
    else if form_get (text "code_verifier") form == []
    then some (text "invalid_request")
    else if not (
        verify_pkce t.s256 c.code_challenge_method (form_get (text "code_verifier") form)
          c.code_challenge)
    then some (text "invalid_grant")
    else none

-- Of a resource on the request and one bound to the code.
pub is_other_resource : TokenConfig → Form → AuthCode → Bool
is_other_resource t form c =
    not (form_get (text "resource") form == [])
    && not (c.resource == [])
    && not (same_resource_identifier t.parse_url (form_get (text "resource") form) c.resource)

-- The handler's last part, for a code that has passed.
grant_code : TokenConfig → Chance → AuthCode → Text → Endpoint → Response × Endpoint
unfolding issue
grant_code t x c client_auth st =
    let who : Grantee = record {
      principal = c.subject;
      actor = c.actor;
      client_auth = client_auth;
    } in
    let st' =
      if not (c.actor == []) && t.has_delegate_auth
      then record st { delegate_auths = st.delegate_auths ++ who ∷ [] }
      else st in
    issue t x who c.scope x.fresh_chain c.client_id st'

-- What follows the consumption of a code.
check_code : TokenConfig → Chance → Form → AuthCode → Endpoint → Response × Endpoint
unfolding grant_code
check_code t x form c st =
    if not (c.client_id == []) && not (form_get (text "client_id") form == c.client_id)
    then (oauth_error 400 (text "invalid_grant"), st)
    else elim (code_client_auth t form c.client) [
      | err e ↦ (oauth_error 401 (text "invalid_client"), st)
      | ok client_auth ↦
          if is_other_resource t form c
          then (oauth_error 400 (text "invalid_target"), st)
          else elim (binding_error t form c) [
            | some code ↦ (oauth_error 400 code, st)
            | none ↦ grant_code t x c client_auth st
          ]
    ]

-- What follows the presentation of a code.
answer_code : TokenConfig → Chance → Form → Endpoint → Option AuthCode × Codes → Response × Endpoint
unfolding check_code
answer_code t x form st (none, codes) =
    (oauth_error 400 (text "invalid_grant"), record st { codes = codes })
answer_code t x form st (some c, codes) = check_code t x form c (record st { codes = codes })

-- handleAuthorizationCode
unfoldable pub handle_authorization_code :
    TokenConfig → Chance → Form → Endpoint → Response × Endpoint
unfolding answer_code
handle_authorization_code t x form st =
    if form_get (text "code") form == []
    then (oauth_error 400 (text "invalid_request"), st)
    else answer_code t x form st (consume (form_get (text "code") form) x.now st.codes)
