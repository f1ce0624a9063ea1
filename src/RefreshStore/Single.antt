-- ===== src/RefreshStore/Single.antt =====
-- One token of a login can be exchanged at a time.
use open_lore.Prelude.{
  ℕ, ◌≡◌, refl, sym, ap, ◌∙◌, ◌≢◌, ◌⊎◌, inl, inr, true, false, Option, none, some, [], ◌∷◌, arith,
  ◌==◌, if◌then◌else◌, Bool-cases, Option-cases, In, Text, eq_iff, lookup, put, delete, lookup-put,
  lookup-delete,
}
use open_lore.RefreshStore.{
  RefreshToken, Tokens, is_authenticated, is_expired, revoke_chain_locked, retry, answer_used,
  rotate_used, rotate_unused, rotate,
}
use mathlib.Core.Path.{subst}
use open_lore.RefreshStore.Rotation.{lookup-revoke_chain_locked, lookup-exchanged}

-- No key is repeated, as in a Go map.
unfoldable pub IsMap : Tokens → Type 0
IsMap [] = Unit {0}
IsMap ((k, v) ∷ tokens) = (lookup k tokens ≡ none) × IsMap tokens

-- Two tokens of one chain that have not been used have the same key.
unfoldable pub IsSingle : Tokens → Type 0
IsSingle tokens =
    (k j : Text) (a b : RefreshToken)
    → lookup k tokens ≡ some a
    → lookup j tokens ≡ some b
    → a.used ≡ false
    → b.used ≡ false
    → a.chain_id ≡ b.chain_id
    → k ≡ j

lookup_of_In :
    (k : Text) (v : RefreshToken) (tokens : Tokens)
    → IsMap tokens
    → In (k, v) tokens
    → lookup k tokens ≡ some v
unfolding lookup IsMap
lookup_of_In k v [] h m = elim m [ ]
lookup_of_In k v ((j, w) ∷ tokens) (fresh, h) (inl p) = here (ap (λ x. x.0) p) (ap (λ x. x.1) p)
  where
    here : k ≡ j → v ≡ w → (if j == k then some w else lookup k tokens) ≡ some v
    here e f = ground (arith, eq_iff j k)
lookup_of_In k v ((j, w) ∷ tokens) (fresh, h) (inr i) = there (lookup_of_In k v tokens h i)
  where
    there : lookup k tokens ≡ some v → (if j == k then some w else lookup k tokens) ≡ some v
    there found = elim (Bool-cases (j == k)) [
      | inl e ↦ clash (subst (λ x. lookup x tokens ≡ none) ((eq_iff j k).0 e) fresh)
      | inr e ↦ rw e found
    ]
      where
        clash : {X : Type 0} → lookup k tokens ≡ none → X
        clash g = cc

put-IsMap : (k : Text) (v : RefreshToken) (tokens : Tokens) → IsMap tokens → IsMap (put k v tokens)
unfolding put IsMap
put-IsMap k v [] h = (unfold lookup in refl, tt)
put-IsMap k v ((j, w) ∷ tokens) (fresh, h) = elim (Bool-cases (j == k)) [
  | inl e ↦ rw (e, put) (subst (λ x. lookup x tokens ≡ none) ((eq_iff j k).0 e) fresh, h)
  | inr e ↦ rw (e, put) (kept e, put-IsMap k v tokens h)
]
  where
    kept : j == k ≡ false → lookup j (put k v tokens) ≡ none
    kept e = ground (arith, lookup-put k j v tokens, eq_iff j k, eq_iff k j)

delete-IsMap : (k : Text) (tokens : Tokens) → IsMap tokens → IsMap (delete k tokens)
unfolding delete IsMap
delete-IsMap k [] h = tt
delete-IsMap k ((j, w) ∷ tokens) (fresh, h) = elim (Bool-cases (j == k)) [
  | inl e ↦ rw (e, delete) (delete-IsMap k tokens h)
  | inr e ↦ rw (e, delete) (kept, delete-IsMap k tokens h)
]
  where
    kept : lookup j (delete k tokens) ≡ none
    kept = ground (arith, lookup-delete k j tokens)

revoked :
    (chain k : Text) (v : RefreshToken) (tokens : Tokens)
    → IsMap tokens
    → lookup k (revoke_chain_locked chain tokens) ≡ some v
    → lookup k tokens ≡ some v
revoked chain k v tokens h e =
    lookup_of_In k v tokens h (lookup-revoke_chain_locked chain k tokens v e).1

revoke_chain_locked-IsMap :
    (chain : Text) (tokens : Tokens) → IsMap tokens → IsMap (revoke_chain_locked chain tokens)
unfolding revoke_chain_locked IsMap
revoke_chain_locked-IsMap chain [] h = tt
revoke_chain_locked-IsMap chain ((j, w) ∷ tokens) (fresh, h) =
    elim (Bool-cases (w.chain_id == chain)) [
      | inl e ↦ rw (e, revoke_chain_locked) (revoke_chain_locked-IsMap chain tokens h)
      | inr e ↦
          rw (e, revoke_chain_locked)
            (
              kept (Option-cases (lookup j (revoke_chain_locked chain tokens))),
              revoke_chain_locked-IsMap chain tokens h,
            )
    ]
  where
    kept :
        (lookup j (revoke_chain_locked chain tokens) ≡ none)
          ⊎ ((v : RefreshToken) × (lookup j (revoke_chain_locked chain tokens) ≡ some v))
        → lookup j (revoke_chain_locked chain tokens) ≡ none
    kept (inl e) = e
    kept (inr (v, e)) = clash (revoked chain j v tokens h e)
      where
        clash : {X : Type 0} → lookup j tokens ≡ some v → X
        clash g = cc

-- What has no entry but those of the tokens is single when they are.
subset-IsSingle :
    (tokens after : Tokens)
    → ((k : Text) (v : RefreshToken) → lookup k after ≡ some v → lookup k tokens ≡ some v)
    → IsSingle tokens
    → IsSingle after
unfolding IsSingle
subset-IsSingle tokens after sub h k j a b e f = h k j a b (sub k a e) (sub j b f)

abbrev IsKept : Tokens → Type 0
IsKept tokens = IsMap tokens × IsSingle tokens

answer_used-IsKept :
    (o : Option RefreshToken) (disk : Option Text) (old new_token : RefreshToken) (tokens : Tokens)
    → IsKept tokens
    → IsKept (answer_used o disk old new_token tokens).1
unfolding answer_used
answer_used-IsKept (some successor) disk old new_token tokens h = h
answer_used-IsKept none disk old new_token tokens (m, s) =
    elim (Bool-cases (is_authenticated new_token.client_auth)) [
      | inl e ↦ rw e (m, s)
      | inr e ↦ rw e (
        revoke_chain_locked-IsMap old.chain_id tokens m,
        subset-IsSingle tokens (revoke_chain_locked old.chain_id tokens)
            (λ k v g. revoked old.chain_id k v tokens m g) s,
      )
    ]

deleted :
    (t k : Text) (v : RefreshToken) (tokens : Tokens)
    → lookup k (delete t tokens) ≡ some v
    → lookup k tokens ≡ some v
deleted t k v tokens e = ground (arith, lookup-delete t k tokens)

-- A token that is not used after an exchange is the new one, or was there under a key other than the
-- old one.
unused_after :
    (now : ℕ) (t k : Text) (old n : RefreshToken) (tokens : Tokens) (a : RefreshToken)
    → lookup k (
        put n.token n
          (put t (record old { used = true; rotated_at = now; replaced_by = n.token }) tokens))
      ≡ some a
    → a.used ≡ false
    → ((k ≡ n.token) × (a ≡ n)) ⊎ ((k ≢ t) × (lookup k tokens ≡ some a))
unused_after now t k old n tokens a e u = split (sym (lookup-exchanged now t k old n tokens) ∙ e)
  where
    is_used :
        {X : Type 0}
        → some (record old { used = true; rotated_at = now; replaced_by = n.token }) ≡ some a
        → X
    is_used g = cc (g, u)

    split :
        (if n.token == k
            then some n
            else if t == k
            then some (record old { used = true; rotated_at = now; replaced_by = n.token })
            else lookup k tokens)
          ≡ some a
        → ((k ≡ n.token) × (a ≡ n)) ⊎ ((k ≢ t) × (lookup k tokens ≡ some a))
    split g = elim (Bool-cases (n.token == k)) [
      | inl x ↦ inl (sym ((eq_iff n.token k).0 x), new_one (rw x at g))
      | inr x ↦ elim (Bool-cases (t == k)) [
        | inl y ↦ is_used (rw (x, y) at g)
        | inr y ↦ inr (λ q. apart y q, rw (x, y) at g)
      ]
    ]
      where
        new_one : some n ≡ some a → a ≡ n
        new_one h = cc

        apart : t == k ≡ false → k ≡ t → ⊥
        apart y q = ground (arith, eq_iff t k)

exchanged-IsSingle :
    (now : ℕ) (t : Text) (old n : RefreshToken) (tokens : Tokens)
    → IsSingle tokens
    → lookup t tokens ≡ some old
    → old.used ≡ false
    → n.chain_id ≡ old.chain_id
    → IsSingle (
        put n.token n
          (put t (record old { used = true; rotated_at = now; replaced_by = n.token }) tokens))
unfolding IsSingle
exchanged-IsSingle now t old n tokens s found fresh chain k j a b ea eb ua ub same =
    join (unused_after now t k old n tokens a ea ua) (unused_after now t j old n tokens b eb ub)
  where
    join :
        ((k ≡ n.token) × (a ≡ n)) ⊎ ((k ≢ t) × (lookup k tokens ≡ some a))
        → ((j ≡ n.token) × (b ≡ n)) ⊎ ((j ≢ t) × (lookup j tokens ≡ some b))
        → k ≡ j
    join (inl (p, q)) (inl (v, w)) = p ∙ sym v
    join (inl (p, q)) (inr (ne, lb)) =
        elim (ne (
          s j t b old lb found ub fresh
            (sym same ∙ ap (λ (x : RefreshToken). x.chain_id) q ∙ chain))) [ ]
    join (inr (ne, la)) (inl (v, w)) =
        elim (ne (
          s k t a old la found ua fresh
            (same ∙ ap (λ (x : RefreshToken). x.chain_id) w ∙ chain))) [ ]
    join (inr (ne, la)) (inr (nf, lb)) = s k j a b la lb ua ub same

rotate_unused-IsKept :
    (disk : Option Text) (now : ℕ) (t : Text) (old n : RefreshToken) (tokens : Tokens)
    → IsKept tokens
    → lookup t tokens ≡ some old
    → old.used ≡ false
    → n.chain_id ≡ old.chain_id
    → IsKept (rotate_unused disk now t old n tokens).1
unfolding rotate_unused
rotate_unused-IsKept disk now t old n tokens (m, s) found fresh chain =
    elim (Bool-cases (is_expired now old)) [
      | inl e ↦ rw e (
        delete-IsMap t tokens m,
        subset-IsSingle tokens (delete t tokens) (λ k v g. deleted t k v tokens g) s,
      )
      | inr e ↦ rw e (
        put-IsMap n.token n _ (put-IsMap t _ tokens m),
        exchanged-IsSingle now t old n tokens s found fresh chain,
      )
    ]

-- However a rotation ends, if no key was repeated and no two unused tokens were of one chain, it is so
-- afterwards, where the new token is of the chain of the token presented, if that is stored.
pub rotate-IsSingle :
    (disk : Option Text) (now : ℕ) (old_token : Text) (new_token : RefreshToken) (tokens : Tokens)
    → IsMap tokens
    → IsSingle tokens
    → ((old : RefreshToken)
        → lookup old_token tokens ≡ some old
        → new_token.chain_id ≡ old.chain_id)
    → IsMap (rotate disk now old_token new_token tokens).1
      × IsSingle (rotate disk now old_token new_token tokens).1
unfolding rotate rotate_used
rotate-IsSingle disk now old_token new_token tokens m s chain =
    elim (Option-cases (lookup old_token tokens)) [
      | inl e ↦ rw (rotate, e) (m, s)
      | inr (old, e) ↦ elim (Bool-cases old.used) [
        | inl u ↦
            rw (rotate, e, u, rotate_used)
              (answer_used-IsKept (retry now old tokens) disk old new_token tokens (m, s))
        | inr u ↦
            rw (rotate, e, u)
              (rotate_unused-IsKept disk now old_token old new_token tokens (m, s) e u
                (chain old e))
      ]
    ]
