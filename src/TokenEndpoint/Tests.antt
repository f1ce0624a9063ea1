-- ===== src/TokenEndpoint/Tests.antt =====
-- A login by a code with a PKCE challenge, then a refresh, and the theorems on the endpoint there.
use open_lore.Prelude.{
  ◌+◌, ◌≡◌, refl, true, false, none, some, [], ◌∷◌, ◌==◌, if◌then◌else◌, ltb, Text, text,
  has_prefix, lookup, put, delete,
}
use open_lore.AuthCode.{AuthCode, code_ttl, issue_code, consume}
use open_lore.AuthCode.Once.{consume-issue_code}
use open_lore.RefreshStore.{RefreshToken, rotate}
use open_lore.TokenEndpoint.{Form, form_get, TokenConfig, Endpoint, Chance, token_response}
use open_lore.TokenEndpoint.Grants.{successor, authenticate_bound_client, handle_refresh_token}
use open_lore.TokenEndpoint.Grants.Refresh.{
  IsBoundClient, IsRefreshed, handle_refresh_token-IsRefreshed,
}

abbrev config : TokenConfig
config = record {
  mint = λ who scope ttl. some (who.principal, 100 + ttl);
  access_ttl = 10;
  refresh_ttl = 1000;
  wif = none;
  delegation = none;
  resolve = none;
  authenticate = none;
  has_audit = false;
  has_delegate_auth = true;
  parse_url = λ raw. none;
  s256 = λ v. v;
}

abbrev ann_code : AuthCode
ann_code = record {
  subject = text "ann";
  actor = [];
  scope = text "read";
  expires = 0;
  client_id = text "app";
  client = record {
    client_id = text "app";
    redirect_uris = text "https://app/cb" ∷ [];
    cimd = none;
  };
  resource = [];
  redirect_uri = text "https://app/cb";
  code_challenge = text "v";
  code_challenge_method = text "S256";
}

consume-issue_code_example :
    let (given, left) = consume (text "k") 9 (issue_code (text "k") 5 ann_code []) in
    (given
      ≡ (if ltb (5 + code_ttl) 9 then none else some (record ann_code { expires = 5 + code_ttl })))
    × ((consume (text "k") 10 left).0 ≡ none)
    × (lookup (text "j") left ≡ (if text "k" == text "j" then none else lookup (text "j") []))
consume-issue_code_example = consume-issue_code (text "k") (text "j") 5 9 10 ann_code []

abbrev at_login : Endpoint
at_login = record {
  codes = (text "k", record ann_code { expires = 50 }) ∷ [];
  tokens = [];
  audits = [];
  delegate_auths = [];
}

abbrev login_form : Form
login_form =
    (text "code", text "k")
    ∷ (text "client_id", text "app")
    ∷ (text "redirect_uri", text "https://app/cb")
    ∷ (text "code_verifier", text "v")
    ∷ []

abbrev chance : Chance
chance = record { now = 9; fresh = text "r1"; fresh_chain = text "c1"; disk = none }

abbrev first_token : RefreshToken
first_token = record {
  token = text "r1";
  subject = text "ann";
  actor = [];
  client_id = text "app";
  client_auth = text "dcr-local";
  scope = text "read";
  chain_id = text "c1";
  expires_at = 1009;
  used = false;
  rotated_at = 0;
  replaced_by = [];
}

abbrev logged_in : Endpoint
logged_in = record {
  codes = [];
  tokens = (text "r1", first_token) ∷ [];
  audits = [];
  delegate_auths = [];
}

abbrev refresh_form : Form
refresh_form = (text "refresh_token", text "r1") ∷ (text "client_id", text "app") ∷ []

abbrev again : Chance
again = record { now = 20; fresh = text "r2"; fresh_chain = []; disk = none }

abbrev refreshed : Endpoint
refreshed = record {
  codes = [];
  tokens =
      (text "r1", record first_token { used = true; rotated_at = 20; replaced_by = text "r2" })
      ∷ (text "r2", record first_token { token = text "r2"; expires_at = 1020 })
      ∷ [];
  audits = [];
  delegate_auths = [];
}

refreshing :
    handle_refresh_token config again refresh_form logged_in
    ≡ (token_response (text "ann") (text "r2") (text "read") 110, refreshed)
unfolding handle_refresh_token successor authenticate_bound_client form_get rotate lookup put delete
    has_prefix ◌==◌
refreshing = refl

handle_refresh_token-IsRefreshed_example :
    (old : RefreshToken) × (client_auth : Text) × (lookup
        (form_get (text "refresh_token") refresh_form)
        logged_in.tokens
      ≡ some old)
    × IsBoundClient config refresh_form old client_auth
    × IsRefreshed config again
        (form_get (text "refresh_token") refresh_form)
        old
        client_auth
        logged_in
        (text "r2")
        refreshed
handle_refresh_token-IsRefreshed_example =
    handle_refresh_token-IsRefreshed config again refresh_form logged_in refreshed (text "ann")
      (text "r2") (text "read") 110 refreshing
