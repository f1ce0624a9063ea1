-- ===== src/RefreshStore/Rotation.antt =====
-- What each branch of `Rotate` does to the tokens, and what a revocation leaves.
use open_lore.Prelude.{
  ℕ, ◌-◌, ◌≤◌, ◌≡◌, sym, ◌≢◌, ◌⊎◌, inl, inr, true, false, not, ◌&&◌, Option, none, some, [], ◌∷◌,
  arith, ◌==◌, if◌then◌else◌, leb, Bool-cases, Option-cases, In, Text, eq_iff, Result, lookup, put,
  lookup-put, ok, err,
}
use open_lore.RefreshStore.{
  RefreshToken, RefreshRotation, RefreshError, refresh_reuse, refresh_invalid, Tokens,
  refresh_retry_grace, is_authenticated, is_expired, revoke_chain_locked, retry, rotate_used,
  rotate_unused, rotate, after_persist, answer_used,
}

some_injective : {x y : RefreshToken} → some x ≡ some y → x ≡ y
some_injective h = cc

entry :
    {k j : Text} {x y : RefreshToken} → k ≡ j → x ≡ y → ◌≡◌ {A = Text × RefreshToken} (k, x) (j, y)
entry p q = cc

-- A token of the chain is removed, and what is left was there.
pub lookup-revoke_chain_locked :
    (chain tok : Text) (tokens : Tokens) (rt : RefreshToken)
    → lookup tok (revoke_chain_locked chain tokens) ≡ some rt
    → (rt.chain_id ≢ chain) × In (tok, rt) tokens
unfolding revoke_chain_locked lookup
lookup-revoke_chain_locked chain tok [] rt h = cc
lookup-revoke_chain_locked chain tok ((k, x) ∷ tokens) rt h =
    elim (Bool-cases (x.chain_id == chain)) [
      | inl e ↦
          skip (lookup-revoke_chain_locked chain tok tokens rt (rw (e, revoke_chain_locked) at h))
      | inr e ↦ elim (Bool-cases (k == tok)) [
        | inl f ↦ here e f (some_injective (rw (e, revoke_chain_locked, f, lookup) at h))
        | inr f ↦ skip (
            lookup-revoke_chain_locked chain tok tokens rt
              (rw (e, revoke_chain_locked, f, lookup) at h))
      ]
    ]
  where
    skip :
        (rt.chain_id ≢ chain) × In (tok, rt) tokens
        → (rt.chain_id ≢ chain) × In (tok, rt) ((k, x) ∷ tokens)
    skip (ne, m) = (ne, inr m)

    here :
        x.chain_id == chain ≡ false
        → k == tok ≡ true
        → x ≡ rt
        → (rt.chain_id ≢ chain) × In (tok, rt) ((k, x) ∷ tokens)
    here e f p = (other e p, inl (sym (entry ((eq_iff k tok).0 f) p)))
      where
        other : x.chain_id == chain ≡ false → x ≡ rt → rt.chain_id ≢ chain
        other e p = ground (arith, eq_iff x.chain_id chain, e, p)

-- A token of another chain keeps its entry.
pub revoke_chain_locked_keeps :
    (chain tok : Text) (tokens : Tokens) (rt : RefreshToken)
    → lookup tok tokens ≡ some rt
    → rt.chain_id ≢ chain
    → lookup tok (revoke_chain_locked chain tokens) ≡ some rt
unfolding revoke_chain_locked lookup
revoke_chain_locked_keeps chain tok [] rt h ne = cc
revoke_chain_locked_keeps chain tok ((k, x) ∷ tokens) rt h ne =
    ground (arith, eq_iff x.chain_id chain, revoke_chain_locked_keeps chain tok tokens rt)

-- The successor of a token that was exchanged at most the grace period ago, neither used nor expired.
unfoldable pub IsRetry : ℕ → RefreshToken → Tokens → RefreshToken → Type 0
IsRetry now old tokens successor =
    (old.rotated_at ≤ now)
    × (now - old.rotated_at ≤ refresh_retry_grace)
    × (lookup old.replaced_by tokens ≡ some successor)
    × (successor.used ≡ false)
    × (is_expired now successor ≡ false)

retry_cases :
    (now grace : ℕ) (old : RefreshToken) (found : Option RefreshToken) (successor : RefreshToken)
    → (if leb old.rotated_at now && leb (now - old.rotated_at) grace
        then elim found [
          | none ↦ none
          | some next ↦ if not next.used && not (is_expired now next) then some next else none
        ]
        else none)
      ≡ some successor
    → (old.rotated_at ≤ now)
      × (now - old.rotated_at ≤ grace)
      × (found ≡ some successor)
      × (successor.used ≡ false)
      × (is_expired now successor ≡ false)
retry_cases now grace old none successor h = ground arith
retry_cases now grace old (some next) successor h = ground arith

retry-IsRetry :
    (now : ℕ) (old : RefreshToken) (tokens : Tokens) (successor : RefreshToken)
    → retry now old tokens ≡ some successor
    → IsRetry now old tokens successor
unfolding retry IsRetry
retry-IsRetry now old tokens successor h =
    retry_cases now refresh_retry_grace old (lookup old.replaced_by tokens) successor h

-- The tokens after an exchange.
pub lookup-exchanged :
    (now : ℕ) (old_token tok : Text) (old new_token : RefreshToken) (tokens : Tokens)
    → lookup tok (
        put new_token.token new_token (
          put old_token
            (record old { used = true; rotated_at = now; replaced_by = new_token.token })
            tokens))
      ≡ (if new_token.token == tok
          then some new_token
          else if old_token == tok
          then some (record old { used = true; rotated_at = now; replaced_by = new_token.token })
          else lookup tok tokens)
lookup-exchanged now old_token tok old new_token tokens = rw (
  lookup-put new_token.token tok new_token (
      put old_token (record old { used = true; rotated_at = now; replaced_by = new_token.token })
        tokens),
  lookup-put old_token tok
      (record old { used = true; rotated_at = now; replaced_by = new_token.token }) tokens,
)

-- The token has not been used, and is used now; the new one is stored; every other keeps its entry.
unfoldable pub IsExchange : ℕ → Text → RefreshToken → RefreshToken → Tokens → Tokens → Type 0
IsExchange now old_token old new_token tokens after =
    (old.used ≡ false)
    × (is_expired now old ≡ false)
    × ((tok : Text)
        → lookup tok after ≡ (
            if new_token.token == tok
            then some new_token
            else if old_token == tok
            then some (record old { used = true; rotated_at = now; replaced_by = new_token.token })
            else lookup tok tokens))

answer_used-ok :
    (disk : Option Text) (o : Option RefreshToken) (old new_token : RefreshToken)
    (tokens after : Tokens) (r : RefreshRotation)
    → answer_used o disk old new_token tokens ≡ (ok r, after)
    → (r.retried ≡ true) × (o ≡ some r.token) × (after ≡ tokens)
unfolding answer_used
answer_used-ok none none old new_token tokens after r h = ground arith
answer_used-ok (some e) none old new_token tokens after r h = ground arith
answer_used-ok disk (some successor) old new_token tokens after r h = ground arith

answer_used-reuse :
    (disk : Option Text) (o : Option RefreshToken) (old new_token : RefreshToken)
    (tokens after : Tokens)
    → answer_used o disk old new_token tokens ≡ (err refresh_reuse, after)
    → (o ≡ none)
      × (is_authenticated new_token.client_auth ≡ false)
      × (after ≡ revoke_chain_locked old.chain_id tokens)
unfolding answer_used
answer_used-reuse none none old new_token tokens after h = ground arith
answer_used-reuse (some e) none old new_token tokens after h = ground arith
answer_used-reuse disk (some successor) old new_token tokens after h = cc

rotate_unused-ok :
    (disk : Option Text) (now : ℕ) (old_token : Text) (old new_token : RefreshToken)
    (tokens after : Tokens) (r : RefreshRotation)
    → rotate_unused disk now old_token old new_token tokens ≡ (ok r, after)
    → (disk ≡ none)
      × (r ≡ record { token = new_token; retried = false })
      × (is_expired now old ≡ false)
      × (after
          ≡ put new_token.token new_token (
              put old_token
                (record old { used = true; rotated_at = now; replaced_by = new_token.token })
                tokens))
unfolding rotate_unused after_persist
rotate_unused-ok none now old_token old new_token tokens after r h = ground arith
rotate_unused-ok (some e) now old_token old new_token tokens after r h = ground arith

rotate_unused-reuse :
    (disk : Option Text) (now : ℕ) (old_token : Text) (old new_token : RefreshToken)
    (tokens after : Tokens)
    → rotate_unused disk now old_token old new_token tokens ≢ (err refresh_reuse, after)
unfolding rotate_unused after_persist
rotate_unused-reuse none now old_token old new_token tokens after h = ground arith
rotate_unused-reuse (some e) now old_token old new_token tokens after h = ground arith

-- A rotation that succeeds found the token presented, and is one of two. Either the token had been
-- used at most the grace period ago and the answer is the successor recorded for it, which is neither
-- used nor expired, with the tokens unchanged; or the write succeeded, the token was neither used nor
-- expired, the answer is the new token, and afterwards the new token is stored, the old one is marked
-- used with the time and its successor, and every other key has the entry that it had.
pub rotate_ok :
    (disk : Option Text) (now : ℕ) (old_token : Text) (new_token : RefreshToken)
    (tokens after : Tokens) (r : RefreshRotation)
    → rotate disk now old_token new_token tokens ≡ (ok r, after)
    → (old : RefreshToken) × (lookup old_token tokens ≡ some old)
      × (((old.used ≡ true)
            × (r.retried ≡ true)
            × IsRetry now old tokens r.token
            × (after ≡ tokens))
          ⊎ ((disk ≡ none)
              × (r ≡ record { token = new_token; retried = false })
              × IsExchange now old_token old new_token tokens after))
unfolding rotate rotate_used IsExchange
rotate_ok disk now old_token new_token tokens after r h =
    elim (Option-cases (lookup old_token tokens)) [
      | inl e ↦ absurd (rw (rotate, e) at h)
      | inr (old, e) ↦ elim (Bool-cases old.used) [
        | inl u ↦
            let (t, f, a) =
              answer_used-ok disk (retry now old tokens) old new_token tokens after r
                (rw (rotate, e, u, rotate_used) at h) in
            (old, e, inl (u, t, retry-IsRetry now old tokens r.token f, a))
        | inr u ↦
            let (d, t, x, a) =
              rotate_unused-ok disk now old_token old new_token tokens after r
                (rw (rotate, e, u) at h) in
            (
              old,
              e,
              inr (
                d,
                t,
                (u, x, λ tok. rw a (lookup-exchanged now old_token tok old new_token tokens)),
              ),
            )
      ]
    ]
  where
    absurd :
        {X : Type 0}
        → ◌≡◌ {A = Result RefreshError RefreshRotation × Tokens}
            (err refresh_invalid, tokens)
            (ok r, after)
        → X
    absurd g = cc

-- When a rotation reports reuse, the token presented is stored and used, the client has not
-- authenticated with a key, and no token can be given again. Afterwards the keys that have an entry
-- are those of tokens outside the chain of the token presented, each with an entry it had; a token of
-- another chain keeps its entry.
pub rotate_reuse :
    (disk : Option Text) (now : ℕ) (old_token : Text) (new_token : RefreshToken)
    (tokens after : Tokens)
    → rotate disk now old_token new_token tokens ≡ (err refresh_reuse, after)
    → (old : RefreshToken) × (lookup old_token tokens ≡ some old)
      × (old.used ≡ true)
      × (is_authenticated new_token.client_auth ≡ false)
      × (retry now old tokens ≡ none)
      × ((tok : Text) (rt : RefreshToken)
          → lookup tok after ≡ some rt
          → (rt.chain_id ≢ old.chain_id) × In (tok, rt) tokens)
      × ((tok : Text) (rt : RefreshToken)
          → lookup tok tokens ≡ some rt
          → rt.chain_id ≢ old.chain_id
          → lookup tok after ≡ some rt)
unfolding rotate rotate_used
rotate_reuse disk now old_token new_token tokens after h =
    elim (Option-cases (lookup old_token tokens)) [
      | inl e ↦ absurd (rw (rotate, e) at h)
      | inr (old, e) ↦ elim (Bool-cases old.used) [
        | inl u ↦
            let (f, c, a) =
              answer_used-reuse disk (retry now old tokens) old new_token tokens after
                (rw (rotate, e, u, rotate_used) at h) in
            (
              old,
              e,
              u,
              c,
              f,
              λ tok rt g. lookup-revoke_chain_locked old.chain_id tok tokens rt (rw a at g),
              λ tok rt g ne. rw a (revoke_chain_locked_keeps old.chain_id tok tokens rt g ne),
            )
        | inr u ↦
            elim (rotate_unused-reuse disk now old_token old new_token tokens after
              (rw (rotate, e, u) at h)) [ ]
      ]
    ]
  where
    absurd :
        {X : Type 0}
        → ◌≡◌ {A = Result RefreshError RefreshRotation × Tokens}
            (err refresh_invalid, tokens)
            (err refresh_reuse, after)
        → X
    absurd g = cc
