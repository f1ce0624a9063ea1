-- ===== src/TokenEndpoint/Code.antt =====
-- pkg/openlore/tokenendpoint.go: what must hold for an authorization code to be exchanged for tokens.
use open_lore.Prelude.{◌+◌, ◌≡◌, ◌⊎◌, false, [], Text, text, put}
use open_lore.AuthCode.{AuthCode}
use open_lore.RefreshStore.{RefreshToken}
use open_lore.TokenEndpoint.Checks.{MeetsBinding, AsksResource, IsAuthenticated}
use open_lore.TokenEndpoint.{Form, form_get, TokenConfig, Endpoint, Chance, or_full}

-- The token that a login leaves in the refresh store.
abbrev pub login_token : TokenConfig → Chance → AuthCode → Text → RefreshToken
login_token t x c client_auth = record {
  token = x.fresh;
  subject = c.subject;
  actor = c.actor;
  client_id = c.client_id;
  client_auth = client_auth;
  scope = or_full c.scope;
  chain_id = x.fresh_chain;
  expires_at = x.now + t.refresh_ttl;
  used = false;
  rotated_at = 0;
  replaced_by = [];
}

-- What a code must pass to be exchanged, and what the exchange leaves.
abbrev pub IsExchanged :
    TokenConfig → Chance → Form → AuthCode → Endpoint → Text → Endpoint → Type 0
IsExchanged t x form c st refresh u =
    (client_auth : Text) × ((c.client_id ≡ []) ⊎ (form_get (text "client_id") form ≡ c.client_id))
    × IsAuthenticated t form c.client client_auth
    × AsksResource t form c
    × MeetsBinding t form c
    × (refresh ≡ x.fresh)
    × (u.codes ≡ st.codes)
    × (u.tokens ≡ put x.fresh (login_token t x c client_auth) st.tokens)
