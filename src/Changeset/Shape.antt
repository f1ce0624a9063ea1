-- ===== src/Changeset/Shape.antt =====
-- What a valid change set is like.
use open_lore.Prelude.{
  ℕ, ◌≡◌, refl, ◌≢◌, inl, inr, true, false, not, ◌||◌, Option, none, some, List, [], ◌∷◌, arith,
  ◌==◌, if◌then◌else◌, ltb, Bool-cases, Option-cases, length, All, Text, eq_iff,
}
use open_lore.Vfs.{
  ChangeAction, write, mkdir, mkdir_all, remove, remove_all, set_xattr, remove_xattr,
  preserve_and_recreate_xattrs, migrate_xattrs,
}
use open_lore.Changeset.{
  Change, ChangeSet, ChangeSetError, ActionName, no_action, action, unknown_action, Move, payloads,
  count, fits, validate_change, validate_changes, leaves, validate_change_set, wrong_payload,
  unknown_name, missing_target, is_blank, check_moves, check_move, move_error, leaf_at, was_seen,
  same_index, ℤ, invalid_indices, paired_twice, singleton_fields, singleton_moves,
}

-- The payloads that an action takes.
unfoldable pub arity : ChangeAction → ℕ
arity mkdir = 0
arity mkdir_all = 0
arity remove = 0
arity _ = 1

fits-arity : (c : Change) (a : ChangeAction) → fits c a ≡ true → payloads c ≡ arity a
unfolding fits payloads count arity
fits-arity c write h = ground arith
fits-arity c mkdir h = ground arith
fits-arity c mkdir_all h = ground arith
fits-arity c remove h = ground arith
fits-arity c remove_all h = ground arith
fits-arity c set_xattr h = ground arith
fits-arity c remove_xattr h = ground arith
fits-arity c preserve_and_recreate_xattrs h = ground arith
fits-arity c migrate_xattrs h = ground arith

-- A change has a target, one of the nine actions, and as many payloads as the action takes.
unfoldable pub IsShaped : Change → Type 0
IsShaped c =
    (c.target ≢ []) × ((a : ChangeAction) × (c.action_name ≡ action a) × (payloads c ≡ arity a))

named :
    (c : Change) (n : ActionName)
    → (let r : Option ChangeSetError = elim n [
      | no_action ↦ some unknown_name
      | unknown_action name ↦ some unknown_name
      | action a ↦ if fits c a then none else some wrong_payload
    ] in
        r)
      ≡ none
    → (a : ChangeAction) × (n ≡ action a) × (fits c a ≡ true)
named c no_action h = cc
named c (unknown_action name) h = cc
named c (action a) h = (a, refl, ground arith)

pub validate_change-IsShaped : (c : Change) → validate_change c ≡ none → IsShaped c
unfolding validate_change IsShaped
validate_change-IsShaped c h = elim (Bool-cases (c.target == [])) [
  | inl e ↦ absurd (rw (validate_change, e) at h)
  | inr e ↦
      let (a, same, f) = named c c.action_name (rw (validate_change, e) at h) in
      (λ p. differs e p, (a, same, fits-arity c a f))
]
  where
    absurd : {X : Type 0} → some missing_target ≡ none → X
    absurd g = cc

    differs : c.target == [] ≡ false → c.target ≢ []
    differs e p = ground (arith, eq_iff c.target [])

validate_changes-All :
    (changes : List Change) → validate_changes changes ≡ none → All IsShaped changes
unfolding validate_changes
validate_changes-All [] h = tt
validate_changes-All (c ∷ changes) h = elim (Option-cases (validate_change c)) [
  | inl e ↦
      (validate_change-IsShaped c e, validate_changes-All changes (rw (e, validate_changes) at h))
  | inr (x, e) ↦ absurd (rw (e, validate_changes) at h)
]
  where
    absurd : {X : Type 0} {x : ChangeSetError} → some x ≡ none → X
    absurd g = cc

-- No move of the list has an index that was seen before or that another has.
unfoldable pub ArePaired : List ℤ → List ℤ → List Move → Type 0
ArePaired seen_from seen_to [] = Unit {0}
ArePaired seen_from seen_to (m ∷ moves) =
    (was_seen seen_from m.source ≡ false)
    × (was_seen seen_to m.destination ≡ false)
    × (same_index m.source m.destination ≡ false)
    × ArePaired (m.source ∷ seen_from) (m.destination ∷ seen_to) moves

move_cases :
    (sha256 : List ℕ → Text) (seen_from seen_to : List ℤ) (m : Move) (from to : Option Change)
    → (let r : Option ChangeSetError = elim from [
      | none ↦ some invalid_indices
      | some f ↦ elim to [
        | none ↦ some invalid_indices
        | some t ↦
            if same_index m.source m.destination
            then some invalid_indices
            else elim (move_error sha256 f t) [
              | some e ↦ some e
              | none ↦
                  if was_seen seen_from m.source || was_seen seen_to m.destination
                  then some paired_twice
                  else none
            ]
      ]
    ] in
        r)
      ≡ none
    → (was_seen seen_from m.source ≡ false)
      × (was_seen seen_to m.destination ≡ false)
      × (same_index m.source m.destination ≡ false)
move_cases sha256 seen_from seen_to m none to h = cc
move_cases sha256 seen_from seen_to m (some f) none h = cc
move_cases sha256 seen_from seen_to m (some f) (some t) h = ground arith

check_moves-ArePaired :
    (sha256 : List ℕ → Text) (changes : List Change) (seen_from seen_to : List ℤ)
    (moves : List Move)
    → check_moves sha256 changes seen_from seen_to moves ≡ none
    → ArePaired seen_from seen_to moves
unfolding check_moves ArePaired check_move
check_moves-ArePaired sha256 changes seen_from seen_to [] h = tt
check_moves-ArePaired sha256 changes seen_from seen_to (m ∷ moves) h =
    elim (Option-cases (check_move sha256 changes seen_from seen_to m)) [
      | inl e ↦
          let (a, b, c) =
            move_cases sha256 seen_from seen_to m (leaf_at changes m.source)
              (leaf_at changes m.destination) e in
          (
            a,
            b,
            c,
            check_moves-ArePaired sha256 changes (m.source ∷ seen_from) (m.destination ∷ seen_to)
                moves (rw (check_moves, e) at h),
          )
      | inr (x, e) ↦ absurd (rw (check_moves, e) at h)
    ]
  where
    absurd : {X : Type 0} {x : ChangeSetError} → some x ≡ none → X
    absurd g = cc

-- Every leaf of a valid change set has a target, one of the nine actions, and as many payloads as the
-- action takes: none for mkdir, mkdir_all and remove, one for any other; and no two moves of a valid
-- set share a source or share a destination, nor is the source of one its destination.
pub validate_change_set-IsShaped :
    (sha256 : List ℕ → Text) (cs : ChangeSet)
    → validate_change_set sha256 cs ≡ none
    → All IsShaped (leaves cs) × ArePaired [] [] cs.moves
unfolding validate_change_set leaves
validate_change_set-IsShaped sha256 cs h = go cs.changes cs.moves h
  where
    absurd : {X : Type 0} {x : ChangeSetError} → some x ≡ none → X
    absurd g = cc

    single :
        (moves : List Move)
        → (let r : Option ChangeSetError =
              if ltb 0 (length moves) then some singleton_moves else validate_change cs.single in
            r)
          ≡ none
        → All IsShaped (cs.single ∷ []) × ArePaired [] [] moves
    single [] g = ((validate_change-IsShaped cs.single g, tt), unfold ArePaired in tt)
    single (m ∷ moves) g = elim (nothing g) [ ]
      where
        nothing :
            (if ltb 0 (length (m ∷ moves)) then some singleton_moves else validate_change cs.single)
              ≡ none
            → ⊥
        nothing g = ground arith

    go :
        (changes : List Change) (moves : List Move)
        → (let r : Option ChangeSetError = elim changes [
          | [] ↦ if ltb 0 (length moves) then some singleton_moves else validate_change cs.single
          | c ∷ rest ↦
              if not (is_blank cs.single)
              then some singleton_fields
              else elim (validate_changes (c ∷ rest)) [
                | some e ↦ some e
                | none ↦ check_moves sha256 (c ∷ rest) [] [] moves
              ]
        ] in
            r)
          ≡ none
        → All IsShaped (elim changes [ [] ↦ cs.single ∷ [] | c ∷ rest ↦ c ∷ rest ])
          × ArePaired [] [] moves
    go [] moves g = single moves g
    go (c ∷ rest) moves g = elim (Bool-cases (is_blank cs.single)) [
      | inr b ↦ absurd (rw b at g)
      | inl b ↦ elim (Option-cases (validate_changes (c ∷ rest))) [
        | inl e ↦ (
          validate_changes-All (c ∷ rest) e,
          check_moves-ArePaired sha256 (c ∷ rest) [] [] moves (rw (b, e) at g),
        )
        | inr (x, e) ↦ absurd (rw (b, e) at g)
      ]
    ]
