-- ===== src/TokenEndpoint/Grants/Refresh.antt =====
-- pkg/openlore/tokenendpoint.go: what must hold for a refresh token to be exchanged.
use open_lore.Prelude.{
  ℕ, ◌+◌, ◌≡◌, refl, sym, ap, ◌∙◌, ◌≢◌, ◌⊎◌, inl, inr, true, false, not, ◌&&◌, Option, none, some,
  [], ◌==◌, if◌then◌else◌, Bool-cases, Option-cases, eq_iff, has_prefix, Text, text, Result, lookup,
  err, ok,
}
use open_lore.RefreshStore.{RefreshToken, RefreshRotation, RefreshError, Tokens, rotate}
use open_lore.AuthCode.{CimdClient}
use open_lore.TokenEndpoint.{
  Form, form_get, TokenConfig, Endpoint, Chance, Response, oauth_error, token_response, or_full,
}
use open_lore.TokenEndpoint.Grants.{
  authenticate_bound_client, record_refresh, successor, issue_rotated, refresh_authenticated,
  handle_refresh_token,
}

error-ne-token :
    (n : ℕ) (code : Text) (st u : Endpoint) (access refresh scope : Text) (exp : ℕ)
    → ◌≢◌ {A = Response × Endpoint}
        (oauth_error n code, st)
        (token_response access refresh scope exp, u)
error-ne-token n code st u access refresh scope exp h = cc

record_refresh-stores :
    (t : TokenConfig) (outcome : Text) (token : RefreshToken) (st : Endpoint)
    → ((record_refresh t outcome token st).codes ≡ st.codes)
      × ((record_refresh t outcome token st).tokens ≡ st.tokens)
unfolding record_refresh
record_refresh-stores t outcome token st =
    elim (Bool-cases (t.has_audit && not (token.chain_id == []))) [
      | inl e ↦ rw (e, record_refresh) (refl, refl)
      | inr e ↦ rw (e, record_refresh) (refl, refl)
    ]

issue_rotated-token :
    (t : TokenConfig) (client_auth : Text) (old : RefreshToken) (rotation : RefreshRotation)
    (st u : Endpoint) (access refresh scope : Text) (exp : ℕ)
    → issue_rotated t client_auth old rotation st ≡ (token_response access refresh scope exp, u)
    → (refresh ≡ rotation.token.token) × (u.codes ≡ st.codes) × (u.tokens ≡ st.tokens)
unfolding issue_rotated
issue_rotated-token t client_auth old rotation st u access refresh scope exp h =
    go
      (t.mint (record { principal = old.subject; actor = old.actor; client_auth = client_auth })
        (or_full old.scope) t.access_ttl)
      refl
  where
    go :
        (minted : Option (Text × ℕ))
        → t.mint
            (record { principal = old.subject; actor = old.actor; client_auth = client_auth })
            (or_full old.scope)
            t.access_ttl
          ≡ minted
        → (refresh ≡ rotation.token.token) × (u.codes ≡ st.codes) × (u.tokens ≡ st.tokens)
    go none m = absurd (
        error-ne-token 500 (text "server_error") (record_refresh t (text "mint_failed") old st) u
          access refresh scope exp (rw (m, issue_rotated) at h))
    go (some (a, e)) m =
        let outcome : Text = if rotation.retried then text "retry" else text "success" in
        let g : (
          token_response a rotation.token.token (or_full old.scope) e,
          record_refresh t outcome old st,
        )
            ≡ (token_response access refresh scope exp, u) =
          rw (m, issue_rotated) at h in
        let left : record_refresh t outcome old st ≡ u = cc in
        let (codes, tokens) = record_refresh-stores t outcome old st in
        (
          cc,
          ap (λ (s : Endpoint). s.codes) (sym left) ∙ codes,
          ap (λ (s : Endpoint). s.tokens) (sym left) ∙ tokens,
        )

-- The client that the token is bound to, if any, is that of the request; where its id is an https
-- URL, the metadata found there authenticates the request, and gives the level of authentication;
-- any other token keeps its level.
abbrev pub IsBoundClient : TokenConfig → Form → RefreshToken → Text → Type 0
IsBoundClient t form old client_auth =
    ((old.client_id ≡ []) ⊎ (form_get (text "client_id") form ≡ old.client_id))
    × (((has_prefix old.client_id (text "https://") ≡ false) × (client_auth ≡ old.client_auth))
        ⊎ ((has_prefix old.client_id (text "https://") ≡ true)
            × ((resolve : Text → Option CimdClient) × (authenticate : Form
                  → CimdClient
                  → Result Text Text)
                × (client : CimdClient) × (t.resolve ≡ some resolve)
                × (t.authenticate ≡ some authenticate)
                × (resolve old.client_id ≡ some client)
                × (authenticate form client ≡ ok client_auth))))

authenticate_bound_client-ok :
    (t : TokenConfig) (form : Form) (old : RefreshToken) (client_auth : Text)
    → authenticate_bound_client t form old ≡ ok client_auth
    → IsBoundClient t form old client_auth
unfolding authenticate_bound_client has_prefix
authenticate_bound_client-ok t form old client_auth h = elim (Bool-cases (old.client_id == [])) [
  | inl e ↦
      let unbound : old.client_id ≡ [] = (eq_iff old.client_id []).0 e in
      let same : old.client_auth ≡ client_auth =
        injected (rw (e, authenticate_bound_client) at h) in
      (inl unbound, inl (rw unbound refl, sym same))
  | inr e ↦ elim (Bool-cases (form_get (text "client_id") form == old.client_id)) [
    | inr f ↦ absurd (refused (rw (e, f, authenticate_bound_client) at h))
    | inl f ↦ (
      inr ((eq_iff (form_get (text "client_id") form) old.client_id).0 f),
      elim (Bool-cases (has_prefix old.client_id (text "https://"))) [
        | inr g ↦ inl (g, sym (injected (rw (e, f, g, authenticate_bound_client) at h)))
        | inl g ↦ inr (
          g,
          elim (Option-cases t.resolve) [
            | inl r ↦ absurd (refused (rw (e, f, g, r, authenticate_bound_client) at h))
            | inr (resolve, r) ↦ elim (Option-cases t.authenticate) [
              | inl a ↦ absurd (refused (rw (e, f, g, r, a, authenticate_bound_client) at h))
              | inr (authenticate, a) ↦ elim (Option-cases (resolve old.client_id)) [
                | inl c ↦ absurd (refused (rw (e, f, g, r, a, c, authenticate_bound_client) at h))
                | inr (client, c) ↦ (
                  resolve,
                  authenticate,
                  client,
                  r,
                  a,
                  c,
                  rw (e, f, g, r, a, c, authenticate_bound_client) at h,
                )
              ]
            ]
          ],
        )
      ],
    )
  ]
]
  where
    injected :
        ◌≡◌ {A = Result Text Text} (ok old.client_auth) (ok client_auth)
        → old.client_auth ≡ client_auth
    injected q = cc

    refused : {z : Text} → ◌≡◌ {A = Result Text Text} (err z) (ok client_auth) → ⊥
    refused q = cc

-- The token that is offered in place of the one presented: of its subject, actor, client, scope and
-- chain, with the level at which the client was authenticated, unused, for a refresh lifetime from now.
abbrev pub IsSuccessor : TokenConfig → Chance → Text → RefreshToken → RefreshToken → Type 0
IsSuccessor t x client_auth old new =
    (new.token ≡ x.fresh)
    × (new.subject ≡ old.subject)
    × (new.actor ≡ old.actor)
    × (new.client_id ≡ old.client_id)
    × (new.scope ≡ old.scope)
    × (new.chain_id ≡ old.chain_id)
    × (new.client_auth ≡ client_auth)
    × (new.expires_at ≡ x.now + t.refresh_ttl)
    × (new.used ≡ false)
    × (new.rotated_at ≡ 0)
    × (new.replaced_by ≡ [])

-- What a refresh token must pass, and what the exchange leaves.
abbrev pub IsRefreshed :
    TokenConfig → Chance → Text → RefreshToken → Text → Endpoint → Text → Endpoint → Type 0
IsRefreshed t x presented old client_auth st refresh u =
    (new : RefreshToken) × (rotation : RefreshRotation) × IsSuccessor t x client_auth old new
    × (rotate x.disk x.now presented new st.tokens ≡ (ok rotation, u.tokens))
    × (refresh ≡ rotation.token.token)
    × (u.codes ≡ st.codes)

refresh_authenticated-IsRefreshed :
    (t : TokenConfig) (x : Chance) (presented client_auth : Text) (old : RefreshToken)
    (st u : Endpoint) (access refresh scope : Text) (exp : ℕ)
    → refresh_authenticated t x presented client_auth old st
      ≡ (token_response access refresh scope exp, u)
    → IsRefreshed t x presented old client_auth st refresh u
unfolding refresh_authenticated successor
refresh_authenticated-IsRefreshed t x presented client_auth old st u access refresh scope exp h =
    go (rotate x.disk x.now presented (successor t x client_auth old) st.tokens) refl
  where
    go :
        (p : Result RefreshError RefreshRotation × Tokens)
        → rotate x.disk x.now presented (successor t x client_auth old) st.tokens ≡ p
        → IsRefreshed t x presented old client_auth st refresh u
    go (err e, tokens) r = absurd (
        error-ne-token 400 (text "invalid_grant")
          (record_refresh t (text "rotation_rejected") (record old { client_auth = client_auth })
            (record st { tokens = tokens }))
          u access refresh scope exp (rw (r, refresh_authenticated) at h))
    go (ok rotation, tokens) r =
        let (same, codes, kept) =
          issue_rotated-token t client_auth (record old { client_auth = client_auth }) rotation
            (record st { tokens = tokens }) u access refresh scope exp
            (rw (r, refresh_authenticated) at h) in
        (
          successor t x client_auth old,
          rotation,
          (refl, refl, refl, refl, refl, refl, refl, refl, refl, refl, refl),
          rw kept r,
          same,
          codes,
        )

-- The endpoint answers a refresh token with tokens only if the token is in the store, the client that
-- it is bound to, if any, is that of the request, and was authenticated if its id is an https URL; and
-- the store, offered a new token of the same subject, actor, client, scope and chain, has rotated the
-- one presented, to the token of the response.
pub handle_refresh_token-IsRefreshed :
    (t : TokenConfig) (x : Chance) (form : Form) (st u : Endpoint) (access refresh scope : Text)
    (exp : ℕ)
    → handle_refresh_token t x form st ≡ (token_response access refresh scope exp, u)
    → (old : RefreshToken) × (client_auth : Text) × (lookup
          (form_get (text "refresh_token") form)
          st.tokens
        ≡ some old)
      × IsBoundClient t form old client_auth
      × IsRefreshed t x (form_get (text "refresh_token") form) old client_auth st refresh u
unfolding handle_refresh_token
handle_refresh_token-IsRefreshed t x form st u access refresh scope exp h =
    go (Bool-cases (form_get (text "refresh_token") form == []))
      (lookup (form_get (text "refresh_token") form) st.tokens) refl
  where
    go_client :
        (old : RefreshToken)
        → lookup (form_get (text "refresh_token") form) st.tokens ≡ some old
        → (form_get (text "refresh_token") form == []) ≡ false
        → (auth : Result Text Text) → authenticate_bound_client t form old ≡ auth
        → (client_auth : Text) × IsBoundClient t form old client_auth
          × IsRefreshed t x (form_get (text "refresh_token") form) old client_auth st refresh u
    go_client old f e (err z) a = absurd (
        error-ne-token 401 (text "invalid_client") (record_refresh t (text "invalid_client") old st)
          u access refresh scope exp (rw (e, f, a, handle_refresh_token) at h))
    go_client old f e (ok client_auth) a = (
      client_auth,
      authenticate_bound_client-ok t form old client_auth a,
      refresh_authenticated-IsRefreshed t x (form_get (text "refresh_token") form) client_auth old
          st u access refresh scope exp (rw (e, f, a, handle_refresh_token) at h),
    )

    go :
        ((form_get (text "refresh_token") form == []) ≡ true)
          ⊎ ((form_get (text "refresh_token") form == []) ≡ false)
        → (found : Option RefreshToken)
        → lookup (form_get (text "refresh_token") form) st.tokens ≡ found
        → (old : RefreshToken) × (client_auth : Text) × (lookup
              (form_get (text "refresh_token") form)
              st.tokens
            ≡ some old)
          × IsBoundClient t form old client_auth
          × IsRefreshed t x (form_get (text "refresh_token") form) old client_auth st refresh u
    go (inl e) found f = absurd (
        error-ne-token 400 (text "invalid_request") st u access refresh scope exp
          (rw (e, handle_refresh_token) at h))
    go (inr e) none f = absurd (
        error-ne-token 400 (text "invalid_grant") st u access refresh scope exp
          (rw (e, f, handle_refresh_token) at h))
    go (inr e) (some old) f =
        let (client_auth, a, r) = go_client old f e (authenticate_bound_client t form old) refl in
        (old, client_auth, f, a, r)
