-- ===== src/RefreshStore.antt =====
-- pkg/openlore/refreshstore.go: the file-backed store of refresh tokens, with rotation and detection
-- of reuse. Times are nanoseconds since Go's zero time, which is 0. A call takes the time at which it
-- runs and what the write to the disk answers (`persist`); the map in memory changes all the same.
pub mod Rotation
pub mod Revocation
pub mod Single
mod Tests
use open_lore.Prelude.{
  ℕ, ◌-◌, Bool, true, false, not, ◌&&◌, ◌||◌, Option, none, some, List, [], ◌∷◌, ◌==◌,
  if◌then◌else◌, ltb, leb, nat_eq, length, Text, text, Result, lookup, put, delete, contains, ok,
  err,
}

pub record RefreshToken : Type 0 where
  pub token : Text
  pub subject : Text
  pub actor : Text
  pub client_id : Text
  pub client_auth : Text
  pub scope : Text
  pub chain_id : Text
  pub expires_at : ℕ
  pub used : Bool
  pub rotated_at : ℕ
  pub replaced_by : Text

pub record RefreshRotation : Type 0 where
  pub token : RefreshToken
  pub retried : Bool

pub data RefreshError : Type 0 where
  refresh_reuse refresh_invalid refresh_stale_retry : RefreshError
  persist_failed : Text → RefreshError

abbrev pub Tokens : Type 0
Tokens = List (Text × RefreshToken)

-- two minutes, in nanoseconds
abbrev pub refresh_retry_grace : ℕ
refresh_retry_grace = 120_000_000_000

-- A client that has authenticated with a private key (pkg/openlore/cimd.go).
unfoldable pub is_authenticated : Text → Bool
is_authenticated level = level == text "private_key_jwt" || level == text "private_key_jwt+mtls"

-- The expiry is set and has passed.
unfoldable pub is_expired : ℕ → RefreshToken → Bool
is_expired now rt = not (nat_eq rt.expires_at 0) && ltb rt.expires_at now

-- revokeChainLocked
unfoldable pub revoke_chain_locked : Text → Tokens → Tokens
revoke_chain_locked chain [] = []
revoke_chain_locked chain ((tok, rt) ∷ tokens) =
    let rest = revoke_chain_locked chain tokens in
    if rt.chain_id == chain then rest else (tok, rt) ∷ rest

-- The error of the write to the disk, if there is one, else the result.
after_persist : {A : Type 0} → Option Text → A → Result RefreshError A
after_persist none a = ok a
after_persist (some e) a = err (persist_failed e)

-- Save
unfoldable pub save : Option Text → RefreshToken → Tokens → Result RefreshError (Unit {0}) × Tokens
unfolding after_persist
save disk rt tokens = (after_persist disk tt, put rt.token rt tokens)

-- The successor that a repeated request may be given again.
pub retry : ℕ → RefreshToken → Tokens → Option RefreshToken
unfolding is_expired
retry now old tokens =
    if leb old.rotated_at now && leb (now - old.rotated_at) refresh_retry_grace
    then elim (lookup old.replaced_by tokens) [
      | none ↦ none
      | some successor ↦
          if not successor.used && not (is_expired now successor) then some successor else none
    ]
    else none

-- The answer to a used token, by the successor that it may have.
answer_used :
    Option RefreshToken
    → Option Text
    → RefreshToken
    → RefreshToken
    → Tokens
    → Result RefreshError RefreshRotation × Tokens
unfolding is_authenticated revoke_chain_locked
answer_used (some successor) disk old new_token tokens =
    (ok (record { token = successor; retried = true }), tokens)
answer_used none disk old new_token tokens =
    if is_authenticated new_token.client_auth then (err refresh_stale_retry, tokens) else (
      elim disk [ none ↦ err refresh_reuse | some e ↦ err (persist_failed e) ],
      revoke_chain_locked old.chain_id tokens,
    )

-- The branch of `Rotate` for a token that has been used.
rotate_used :
    Option Text
    → ℕ
    → RefreshToken
    → RefreshToken
    → Tokens
    → Result RefreshError RefreshRotation × Tokens
unfolding retry answer_used
rotate_used disk now old new_token tokens =
    answer_used (retry now old tokens) disk old new_token tokens

-- The branch for a token that has expired, and for one that is exchanged.
rotate_unused :
    Option Text
    → ℕ
    → Text
    → RefreshToken
    → RefreshToken
    → Tokens
    → Result RefreshError RefreshRotation × Tokens
unfolding is_expired after_persist
rotate_unused disk now old_token old new_token tokens =
    if is_expired now old
    then (
      elim disk [ none ↦ err refresh_invalid | some e ↦ err (persist_failed e) ],
      delete old_token tokens,
    )
    else (
      after_persist disk (record { token = new_token; retried = false }),
      put new_token.token new_token (
          put old_token
            (record old { used = true; rotated_at = now; replaced_by = new_token.token }) tokens),
    )

-- Rotate
unfoldable pub rotate :
    Option Text → ℕ → Text → RefreshToken → Tokens → Result RefreshError RefreshRotation × Tokens
unfolding rotate_used rotate_unused
rotate disk now old_token new_token tokens = elim (lookup old_token tokens) [
  | none ↦ (err refresh_invalid, tokens)
  | some old ↦ elim old.used [
    | true ↦ rotate_used disk now old new_token tokens
    | false ↦ rotate_unused disk now old_token old new_token tokens
  ]
]

-- RevokeChain
unfoldable pub revoke_chain : Option Text → Text → Tokens → Result RefreshError (Unit {0}) × Tokens
unfolding after_persist revoke_chain_locked
revoke_chain disk chain tokens = (after_persist disk tt, revoke_chain_locked chain tokens)

-- The chains issued to the actor on behalf of the subject, each once.
delegation_chains : Text → Text → Tokens → List Text
delegation_chains subject actor [] = []
delegation_chains subject actor ((tok, rt) ∷ tokens) =
    let rest = delegation_chains subject actor tokens in
    if (rt.subject == subject && rt.actor == actor) && not (contains rest rt.chain_id)
    then rt.chain_id ∷ rest
    else rest

revoke_chains : List Text → Tokens → Tokens
unfolding revoke_chain_locked
revoke_chains [] tokens = tokens
revoke_chains (chain ∷ chains) tokens = revoke_chains chains (revoke_chain_locked chain tokens)

-- RevokeDelegation
unfoldable pub revoke_delegation :
    Option Text → Text → Text → Tokens → Result RefreshError ℕ × Tokens
unfolding after_persist delegation_chains revoke_chains
revoke_delegation disk subject actor tokens =
    let chains = delegation_chains subject actor tokens in
    (after_persist disk (length chains), revoke_chains chains tokens)
