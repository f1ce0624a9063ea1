-- ===== src/RefreshStore/Revocation.antt =====
-- What a revocation of a delegation leaves.
use open_lore.Prelude.{
  ◌≡◌, refl, ◌≢◌, inl, inr, Bool, true, false, not, ◌&&◌, Option, List, [], ◌∷◌, arith, ◌==◌,
  if◌then◌else◌, Bool-cases, In, Text, eq_iff, contains, contains-In,
}
use open_lore.RefreshStore.{
  RefreshToken, Tokens, revoke_chain_locked, delegation_chains, revoke_chains, revoke_delegation,
}

unpaired : {k j : Text} {x y : RefreshToken} → ◌≡◌ {A = Text × RefreshToken} (k, x) (j, y) → x ≡ y
unpaired p = cc

In-revoke_chain_locked :
    (chain tok : Text) (tokens : Tokens) (rt : RefreshToken)
    → In (tok, rt) (revoke_chain_locked chain tokens)
    → (rt.chain_id ≢ chain) × In (tok, rt) tokens
unfolding revoke_chain_locked
In-revoke_chain_locked chain tok [] rt m = elim m [ ]
In-revoke_chain_locked chain tok ((k, x) ∷ tokens) rt m = elim (Bool-cases (x.chain_id == chain)) [
  | inl e ↦
      let (ne, i) = In-revoke_chain_locked chain tok tokens rt (rw (e, revoke_chain_locked) at m) in
      (ne, inr i)
  | inr e ↦ there e (In-revoke_chain_locked chain tok tokens rt) (rw (e, revoke_chain_locked) at m)
]
  where
    there :
        x.chain_id == chain ≡ false
        → (In (tok, rt) (revoke_chain_locked chain tokens)
            → (rt.chain_id ≢ chain) × In (tok, rt) tokens)
        → In (tok, rt) ((k, x) ∷ revoke_chain_locked chain tokens)
        → (rt.chain_id ≢ chain) × In (tok, rt) ((k, x) ∷ tokens)
    there e ih (inl p) = (other (unpaired p), inl p)
      where
        other : rt ≡ x → rt.chain_id ≢ chain
        other q = ground (arith, eq_iff x.chain_id chain, e, q)
    there e ih (inr i) = let (ne, j) = ih i in (ne, inr j)

In-revoke_chains :
    (chains : List Text) (tok : Text) (tokens : Tokens) (rt : RefreshToken)
    → In (tok, rt) (revoke_chains chains tokens)
    → ((chain : Text) → In chain chains → rt.chain_id ≢ chain) × In (tok, rt) tokens
unfolding revoke_chains
In-revoke_chains [] tok tokens rt m = (λ chain i. elim i [ ], m)
In-revoke_chains (c ∷ chains) tok tokens rt m =
    let (others, i) = In-revoke_chains chains tok (revoke_chain_locked c tokens) rt m in
    let (ne, j) = In-revoke_chain_locked c tok tokens rt i in (apart ne others, j)
  where
    apart :
        rt.chain_id ≢ c
        → ((chain : Text) → In chain chains → rt.chain_id ≢ chain)
        → (chain : Text) → In chain (c ∷ chains)
        → rt.chain_id ≢ chain
    apart ne others chain (inl p) q = ne (cc (p, q))
    apart ne others chain (inr i) q = others chain i q

-- The chain that the first token adds, and the chains that stay.
first_In :
    (b : Bool) (rest : List Text) (chain : Text)
    → (b && not (contains rest chain) ≡ false → b ≡ true → In chain rest)
    → b ≡ true
    → In chain (if b && not (contains rest chain) then chain ∷ rest else rest)
first_In b rest chain h e = elim (Bool-cases (b && not (contains rest chain))) [
  | inl f ↦ rw f (inl refl)
  | inr f ↦ rw f (h f e)
]

rest_In :
    (b : Bool) (rest : List Text) (c chain : Text)
    → In chain rest
    → In chain (if b then c ∷ rest else rest)
rest_In true rest c chain m = inr m
rest_In false rest c chain m = m

present :
    (b : Bool) (rest : List Text) (chain : Text)
    → b && not (contains rest chain) ≡ false
    → b ≡ true
    → In chain rest
present b rest chain f e = contains-In rest chain (ground arith)

same_pair :
    (subject actor : Text) (rt x : RefreshToken)
    → rt ≡ x
    → rt.subject ≡ subject
    → rt.actor ≡ actor
    → (x.subject == subject && x.actor == actor) ≡ true
same_pair subject actor rt x p s a = ground (arith, eq_iff x.subject subject, eq_iff x.actor actor)

delegation_chains-In :
    (subject actor tok : Text) (tokens : Tokens) (rt : RefreshToken)
    → In (tok, rt) tokens
    → rt.subject ≡ subject
    → rt.actor ≡ actor
    → In rt.chain_id (delegation_chains subject actor tokens)
unfolding delegation_chains
delegation_chains-In subject actor tok [] rt m s a = elim m [ ]
delegation_chains-In subject actor tok ((k, x) ∷ tokens) rt (inl p) s a =
    let rest = delegation_chains subject actor tokens in
    let same = same_pair subject actor rt x (unpaired p) s a in
    rw (unpaired p) (
      first_In (x.subject == subject && x.actor == actor) rest x.chain_id
        (present (x.subject == subject && x.actor == actor) rest x.chain_id) same)
delegation_chains-In subject actor tok ((k, x) ∷ tokens) rt (inr i) s a =
    rest_In
      ((x.subject == subject && x.actor == actor)
        && not (contains (delegation_chains subject actor tokens) x.chain_id))
      (delegation_chains subject actor tokens) x.chain_id rt.chain_id
      (delegation_chains-In subject actor tok tokens rt i s a)

-- After a revocation, whatever the disk answers, a token that is left was there before and is of no
-- chain that had a token of the given subject and actor; so none of that subject and actor is left.
pub revoke_delegation-apart :
    (disk : Option Text) (subject actor : Text) (tokens : Tokens) (tok : Text) (rt : RefreshToken)
    → In (tok, rt) (revoke_delegation disk subject actor tokens).1
    → In (tok, rt) tokens
      × ((k : Text) (x : RefreshToken)
          → In (k, x) tokens
          → x.subject ≡ subject
          → x.actor ≡ actor
          → rt.chain_id ≢ x.chain_id)
unfolding revoke_delegation
revoke_delegation-apart disk subject actor tokens tok rt m =
    let (apart, i) = In-revoke_chains (delegation_chains subject actor tokens) tok tokens rt m in
    (i, λ k x j s a. apart x.chain_id (delegation_chains-In subject actor k tokens x j s a))
