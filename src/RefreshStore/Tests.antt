-- ===== src/RefreshStore/Tests.antt =====
-- The theorems on the refresh tokens, at a store with two logins.
use open_lore.Prelude.{
  ℕ, ◌≡◌, refl, sym, ap, ◌∙◌, ◌≢◌, ◌⊎◌, inl, inr, true, false, Option, none, some, [], ◌∷◌, ◌==◌,
  if◌then◌else◌, Bool-cases, In, Text, text, eq_iff, lookup, put, err, ok,
}
use open_lore.RefreshStore.{
  RefreshToken, RefreshRotation, refresh_reuse, Tokens, rotate, retry, revoke_delegation,
  is_authenticated, is_expired, revoke_chain_locked,
}
use open_lore.RefreshStore.Rotation.{IsRetry, IsExchange, rotate_ok, rotate_reuse}
use open_lore.RefreshStore.Single.{IsMap, IsSingle, rotate-IsSingle}
use open_lore.RefreshStore.Revocation.{revoke_delegation-apart}

abbrev token_of : Text → Text → Text → RefreshToken
token_of name actor chain = record {
  token = name;
  subject = text "ann";
  actor = actor;
  client_id = [];
  client_auth = [];
  scope = text "full";
  chain_id = chain;
  expires_at = 0;
  used = false;
  rotated_at = 0;
  replaced_by = [];
}

abbrev first : RefreshToken
first = token_of (text "a") [] (text "1")

abbrev second : RefreshToken
second = token_of (text "b") [] (text "1")

abbrev delegated : RefreshToken
delegated = token_of (text "c") (text "bot") (text "2")

abbrev logins : Tokens
logins = (text "a", first) ∷ (text "c", delegated) ∷ []

-- The tokens after "a" has been exchanged for "b" at time 5.
abbrev exchanged : Tokens
exchanged =
    (text "a", record first { used = true; rotated_at = 5; replaced_by = text "b" })
    ∷ (text "c", delegated)
    ∷ (text "b", second)
    ∷ []

abbrev new_second : RefreshRotation
new_second = record { token = second; retried = false }

exchange : rotate none 5 (text "a") second logins ≡ (ok new_second, exchanged)
unfolding rotate lookup put ◌==◌ is_expired
exchange = refl

rotate_ok_example :
    (old : RefreshToken) × (lookup (text "a") logins ≡ some old)
    × (((old.used ≡ true)
          × (new_second.retried ≡ true)
          × IsRetry 5 old logins second
          × (exchanged ≡ logins))
        ⊎ ((◌≡◌ {A = Option Text} none none)
            × (new_second ≡ record { token = second; retried = false })
            × IsExchange 5 (text "a") old second logins exchanged))
rotate_ok_example = rotate_ok none 5 (text "a") second logins exchanged new_second exchange

-- The old token again, long after.
abbrev late : ℕ
late = 500_000_000_000

reuse :
    rotate none late (text "a") (token_of (text "x") [] (text "1")) exchanged
    ≡ (err refresh_reuse, (text "c", delegated) ∷ [])
unfolding rotate lookup retry is_authenticated revoke_chain_locked ◌==◌
reuse = refl

rotate_reuse_example :
    (old : RefreshToken) × (lookup (text "a") exchanged ≡ some old)
    × (old.used ≡ true)
    × (is_authenticated [] ≡ false)
    × (retry late old exchanged ≡ none)
    × ((tok : Text) (rt : RefreshToken)
        → lookup tok ((text "c", delegated) ∷ []) ≡ some rt
        → (rt.chain_id ≢ old.chain_id) × In (tok, rt) exchanged)
    × ((tok : Text) (rt : RefreshToken)
        → lookup tok exchanged ≡ some rt
        → rt.chain_id ≢ old.chain_id
        → lookup tok ((text "c", delegated) ∷ []) ≡ some rt)
rotate_reuse_example =
    rotate_reuse none late (text "a") (token_of (text "x") [] (text "1")) exchanged
      ((text "c", delegated) ∷ []) reuse

first_stays : In (text "a", first) (revoke_delegation none (text "ann") (text "bot") logins).1
unfolding revoke_delegation ◌==◌ revoke_chain_locked
first_stays = inl refl

revoke_delegation-apart_example :
    In (text "a", first) logins
    × ((k : Text) (x : RefreshToken)
        → In (k, x) logins
        → x.subject ≡ text "ann"
        → x.actor ≡ text "bot"
        → first.chain_id ≢ x.chain_id)
revoke_delegation-apart_example =
    revoke_delegation-apart none (text "ann") (text "bot") logins (text "a") first first_stays

abbrev one_login : Tokens
one_login = (text "a", first) ∷ []

one_login-IsMap : IsMap one_login
unfolding IsMap lookup
one_login-IsMap = (refl, tt)

one_login-IsSingle : IsSingle one_login
unfolding IsSingle lookup
one_login-IsSingle k j a b ea eb ua ub same = only k a ea ∙ sym (only j b eb)
  where
    only :
        (k : Text) (a : RefreshToken)
        → (if text "a" == k then some first else none) ≡ some a
        → k ≡ text "a"
    only k a e = elim (Bool-cases (text "a" == k)) [
      | inl x ↦ sym ((eq_iff (text "a") k).0 x)
      | inr x ↦ nothing (rw x at e)
    ]
      where
        nothing : {X : Type 0} → none ≡ some a → X
        nothing g = cc

same_chain :
    (old : RefreshToken) → lookup (text "a") one_login ≡ some old → second.chain_id ≡ old.chain_id
unfolding lookup ◌==◌
same_chain old e = ap (λ (x : RefreshToken). x.chain_id) (injected e)
  where
    injected : some first ≡ some old → first ≡ old
    injected g = cc

rotate-IsSingle_example :
    IsMap (rotate none 5 (text "a") second one_login).1
    × IsSingle (rotate none 5 (text "a") second one_login).1
rotate-IsSingle_example =
    rotate-IsSingle none 5 (text "a") second one_login one_login-IsMap one_login-IsSingle same_chain
