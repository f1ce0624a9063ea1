-- ===== src/TokenEndpoint/Grants.antt =====
-- pkg/openlore/tokenendpoint.go: the other grants of the token endpoint, revocation, and the dispatch.
pub mod Refresh
use open_lore.Prelude.{
  ◌+◌, true, false, not, ◌&&◌, ◌||◌, none, some, [], ◌∷◌, ◌++◌, ◌==◌, if◌then◌else◌, Text, text,
  has_prefix, Result, lookup, err, ok,
}
use open_lore.RefreshStore.{
  RefreshToken, RefreshRotation, RefreshError, Tokens, rotate, revoke_chain,
}
use open_lore.TokenEndpoint.{
  Form, form_get, Grantee, WifError, wif_disabled, unknown_identity, invalid_scope, not_verified,
  TokenConfig, AuditEvent, Endpoint, Chance, Response, oauth_error, token_response, revoked,
  or_full, issue_access_only, handle_authorization_code,
}

wif_response : WifError → Response
wif_response wif_disabled = oauth_error 400 (text "unsupported_grant_type")
wif_response unknown_identity = oauth_error 403 (text "invalid_grant")
wif_response invalid_scope = oauth_error 400 (text "invalid_scope")
wif_response not_verified = oauth_error 400 (text "invalid_grant")

-- handleJWTBearer
unfoldable pub handle_jwt_bearer : TokenConfig → Form → Endpoint → Response × Endpoint
unfolding wif_response
handle_jwt_bearer t form st = elim t.wif [
  | none ↦ (oauth_error 400 (text "unsupported_grant_type"), st)
  | some exchange ↦
      if form_get (text "assertion") form == []
      then (oauth_error 400 (text "invalid_request"), st)
      else elim (exchange (form_get (text "assertion") form)) [
        | err e ↦ (wif_response e, st)
        | ok (sub, scope, ttl) ↦
            issue_access_only t (record { principal = sub; actor = []; client_auth = [] }) scope ttl
              st
      ]
]

-- handleTokenExchange
unfoldable pub handle_token_exchange : TokenConfig → Form → Endpoint → Response × Endpoint
handle_token_exchange t form st = elim t.delegation [
  | none ↦ (oauth_error 400 (text "unsupported_grant_type"), st)
  | some exchange ↦
      if form_get (text "actor_token") form == [] || form_get (text "act_for") form == []
      then (oauth_error 400 (text "invalid_request"), st)
      else elim (exchange (form_get (text "actor_token") form) (form_get (text "act_for") form)) [
        | none ↦ (oauth_error 403 (text "invalid_grant"), st)
        | some (who, scope, ttl) ↦ issue_access_only t who scope ttl st
      ]
]

-- authenticateBoundClient
unfoldable pub authenticate_bound_client : TokenConfig → Form → RefreshToken → Result Text Text
authenticate_bound_client t form token =
    if token.client_id == []
    then ok token.client_auth
    else if not (form_get (text "client_id") form == token.client_id)
    then err (text "client_id mismatch")
    else if has_prefix token.client_id (text "https://")
    then elim t.resolve [
      | none ↦ err (text "client authentication unavailable")
      | some resolve ↦ elim t.authenticate [
        | none ↦ err (text "client authentication unavailable")
        | some authenticate ↦ elim (resolve token.client_id) [
          | none ↦ err (text "client metadata unavailable")
          | some client ↦ authenticate form client
        ]
      ]
    ]
    else ok token.client_auth

-- recordRefresh: only what is tied to a chain is kept
record_refresh : TokenConfig → Text → RefreshToken → Endpoint → Endpoint
record_refresh t outcome token st =
    if t.has_audit && not (token.chain_id == [])
    then record st {
      audits =
          st.audits
          ++ record {
            event_type = text "token.refresh";
            grantee = record {
              principal = token.subject;
              actor = token.actor;
              client_auth = token.client_auth;
            };
            outcome = outcome;
            chain_id = token.chain_id;
            client_id = token.client_id;
          }
            ∷ [];
    }
    else st

-- The token that takes the place of the one presented.
unfoldable pub successor : TokenConfig → Chance → Text → RefreshToken → RefreshToken
successor t x client_auth old = record {
  token = x.fresh;
  subject = old.subject;
  actor = old.actor;
  client_id = old.client_id;
  client_auth = client_auth;
  scope = old.scope;
  chain_id = old.chain_id;
  expires_at = x.now + t.refresh_ttl;
  used = false;
  rotated_at = 0;
  replaced_by = [];
}

-- issueRotated, with the audit of its outcome
issue_rotated : TokenConfig → Text → RefreshToken → RefreshRotation → Endpoint → Response × Endpoint
unfolding or_full record_refresh
issue_rotated t client_auth old rotation st =
    elim (t.mint (record { principal = old.subject; actor = old.actor; client_auth = client_auth })
      (or_full old.scope) t.access_ttl) [
        | none ↦
            (oauth_error 500 (text "server_error"), record_refresh t (text "mint_failed") old st)
        | some (access, exp) ↦ (
          token_response access rotation.token.token (or_full old.scope) exp,
          record_refresh t (if rotation.retried then text "retry" else text "success") old st,
        )
      ]

-- What follows the rotation.
after_rotation :
    TokenConfig
    → Text
    → RefreshToken
    → Endpoint
    → Result RefreshError RefreshRotation × Tokens
    → Response × Endpoint
unfolding issue_rotated record_refresh
after_rotation t client_auth old st (err e, tokens) = (
  oauth_error 400 (text "invalid_grant"),
  record_refresh t (text "rotation_rejected") old (record st { tokens = tokens }),
)
after_rotation t client_auth old st (ok rotation, tokens) =
    issue_rotated t client_auth old rotation (record st { tokens = tokens })

-- What follows the authentication of the client.
refresh_authenticated :
    TokenConfig → Chance → Text → Text → RefreshToken → Endpoint → Response × Endpoint
unfolding after_rotation
refresh_authenticated t x presented client_auth old st =
    after_rotation t client_auth (record old { client_auth = client_auth }) st
      (rotate x.disk x.now presented (successor t x client_auth old) st.tokens)

-- handleRefreshToken. The file-backed store never fails to look a token up.
unfoldable pub handle_refresh_token : TokenConfig → Chance → Form → Endpoint → Response × Endpoint
unfolding refresh_authenticated record_refresh
handle_refresh_token t x form st =
    let presented = form_get (text "refresh_token") form in
    if presented == []
    then (oauth_error 400 (text "invalid_request"), st)
    else elim (lookup presented st.tokens) [
      | none ↦ (oauth_error 400 (text "invalid_grant"), st)
      | some old ↦ elim (authenticate_bound_client t form old) [
        | err e ↦ (
          oauth_error 401 (text "invalid_client"),
          record_refresh t (text "invalid_client") old st,
        )
        | ok client_auth ↦ refresh_authenticated t x presented client_auth old st
      ]
    ]

-- revoke
unfoldable pub revoke : TokenConfig → Chance → Form → Endpoint → Response × Endpoint
revoke t x form st =
    let presented = form_get (text "token") form in
    if presented == [] then (revoked, st) else elim (lookup presented st.tokens) [
      | none ↦ (revoked, st)
      | some token ↦ elim (authenticate_bound_client t form token) [
        | err e ↦ (oauth_error 401 (text "invalid_client"), st)
        | ok client_auth ↦
            let (result, tokens) = revoke_chain x.disk token.chain_id st.tokens in
            let st' = record st { tokens = tokens } in
            elim result [
              | err e ↦ (oauth_error 500 (text "server_error"), st')
              | ok u ↦ (
                revoked,
                elim t.has_audit [
                  | false ↦ st'
                  | true ↦ record st' {
                    audits =
                        st'.audits
                        ++ record {
                          event_type = text "token.revoke";
                          grantee = record {
                            principal = token.subject;
                            actor = token.actor;
                            client_auth = client_auth;
                          };
                          outcome = [];
                          chain_id = token.chain_id;
                          client_id = [];
                        }
                          ∷ [];
                  }
                ],
              )
            ]
      ]
    ]

-- ServeHTTP, of a POST with a form that parses
unfoldable pub serve_http : TokenConfig → Chance → Form → Endpoint → Response × Endpoint
serve_http t x form st =
    let grant = form_get (text "grant_type") form in
    if grant == text "authorization_code"
    then handle_authorization_code t x form st
    else if grant == text "refresh_token"
    then handle_refresh_token t x form st
    else if grant == text "urn:ietf:params:oauth:grant-type:jwt-bearer"
    then handle_jwt_bearer t form st
    else if grant == text "urn:openlore:oauth:grant-type:delegation"
    then handle_token_exchange t form st
    else (oauth_error 400 (text "unsupported_grant_type"), st)
