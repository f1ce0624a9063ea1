-- ===== src/Server/SessionWrites.antt =====
-- `buildCanonicalRawSessionFS` of pkg/openlore/server.go, the part that puts the authorizer around the
-- filesystem of a session. Only the nine actions reach it: validation refuses any other name.
use open_lore.Prelude.{
  ℕ, ◌≡◌, refl, ◌≢◌, ◌⊎◌, inl, inr, Bool, true, false, not, ◌&&◌, ◌||◌, Option, none, some, List,
  [], ◌∷◌, arith, ◌==◌, if◌then◌else◌, Bool-cases, All, Text, text, eq_iff,
}
use open_lore.Vfs.{Error, read_only, FileSystem, ChangeAction}
use open_lore.Identity.{Identity, scope_grants_write}
use open_lore.Changeset.{ChangeSet, Change, ActionName, no_action, action, unknown_action, leaves}
use open_lore.Writable.{WritableFs}
use open_lore.ScopedWrite.{ScopedWriteFs, admit_change_set}
use open_lore.ScopedWrite.Gated.{IsRefused, admit_change_set-IsAllowed}
use open_lore.Server.{Server}
use open_lore.Server.Governing.{canonical_path}
use open_lore.Server.Writes.{Denial, sentinel, identity_write_error, mutation_denied_error}
use open_lore.Server.Writes.Gate.{fresh, MayWrite, identity_write_error-none_iff, scope_full_grants}

-- canWrite
unfoldable pub session_can_write : Server → Identity → Bool
session_can_write s id =
    s.auth_enforced
    && not (id.identity_name == [])
    && not (id.identity_name == text "guest")
    && scope_grants_write id.scopes

denied_as : Option Denial → Option Error
denied_as none = none
denied_as (some d) = some (sentinel d)

-- The authorizer of a session over the filesystem `base`, where authorization is enforced.
unfoldable pub session_authorize :
    ℕ → Server → FileSystem → Identity → ActionName → Text → Option Error
unfolding session_can_write denied_as
session_authorize fuel s base id no_action p = some read_only
session_authorize fuel s base id (unknown_action name) p = some read_only
session_authorize fuel s base id (action a) p =
    if session_can_write s id || s.readonly || not (scope_grants_write id.scopes)
    then denied_as (identity_write_error fuel s (record id { policy_snapshot = none }) a p)
    else some (sentinel (mutation_denied_error fuel base a p))

-- The wrapper that gates the writes of a session, none where authorization is not enforced: the
-- session then writes to the filesystem that is handed in.
unfoldable pub session_write_fs :
    {S : Type 0}
    → ℕ
    → Server
    → FileSystem
    → Identity
    → Option (WritableFs S)
    → Option (ScopedWriteFs S)
unfolding session_authorize
session_write_fs fuel s base id inner =
    if s.auth_enforced
    then some (record { inner = inner; authorize = session_authorize fuel s base id })
    else none

-- The leaf names one of the actions, the identity is named and not the guest, and the gate lets the
-- action through on the canonical path of the target.
abbrev pub IsAllowedLeaf : ℕ → Server → Identity → Change → Type 0
IsAllowedLeaf fuel s id c =
    (a : ChangeAction) × (c.action_name ≡ action a)
    × (id.identity_name ≢ [])
    × (id.identity_name ≢ text "guest")
    × MayWrite fuel s (fresh id) a (canonical_path s c.target)

session_authorize-none :
    (fuel : ℕ) (s : Server) (base : FileSystem) (id : Identity) (a : ChangeAction) (p : Text)
    → session_authorize fuel s base id (action a) p ≡ none
    → (id.identity_name ≢ [])
      × (id.identity_name ≢ text "guest")
      × MayWrite fuel s (fresh id) a (canonical_path s p)
unfolding session_authorize denied_as session_can_write
session_authorize-none fuel s base id a p h =
    let passed : identity_write_error fuel s (fresh id) a p ≡ none = ground arith in
    let may : MayWrite fuel s (fresh id) a (canonical_path s p) =
      (identity_write_error-none_iff fuel s (fresh id) a p).0 passed in
    let scope : scope_grants_write id.scopes ≡ true = rw may.scope scope_full_grants in
    let named : (id.identity_name == [] ≡ false) × (id.identity_name == text "guest" ≡ false) =
      ground (arith, scope, may.unlocked) in
    (
      λ e. differ named.0 ((eq_iff id.identity_name []).1 e),
      λ e. differ named.1 ((eq_iff id.identity_name (text "guest")).1 e),
      may,
    )
  where
    differ : {b : Bool} → b ≡ false → b ≡ true → ⊥
    differ f t = cc

-- Where authorization is enforced, the writes of a session are gated, and a change set that it submits
-- is refused, with nothing changed, unless each of its leaves is one that the write gate lets through,
-- for a session of a named identity other than the guest. Where it is not, they are not gated.
pub session_admits-IsAllowedLeaf :
    {S : Type 0} (sha256 : List ℕ → Text) (fuel : ℕ) (s : Server) (base : FileSystem)
    (id : Identity) (inner : Option (WritableFs S)) (cs : ChangeSet) (st : S)
    → ((s.auth_enforced ≡ false) × (session_write_fs fuel s base id inner ≡ none))
      ⊎ ((s.auth_enforced ≡ true)
          × ((gate : ScopedWriteFs S) × (session_write_fs fuel s base id inner ≡ some gate)
              × (gate.inner ≡ inner)
              × (All (IsAllowedLeaf fuel s id) (leaves cs)
                  ⊎ IsRefused st (admit_change_set sha256 gate cs st))))
unfolding session_write_fs
session_admits-IsAllowedLeaf {S} sha256 fuel s base id inner cs st =
    elim (Bool-cases s.auth_enforced) [
      | inr e ↦ inl (e, rw (e, session_write_fs) refl)
      | inl e ↦ inr (
        e,
        (
          gate,
          rw (e, session_write_fs) refl,
          refl,
          elim (admit_change_set-IsAllowed sha256 gate cs st) [
            | inl allowed ↦ inl (each (leaves cs) allowed.1)
            | inr refused ↦ inr refused
          ],
        ),
      )
    ]
  where
    gate : ScopedWriteFs S
    gate = record { inner = inner; authorize = session_authorize fuel s base id }

    one :
        (c : Change) (n : ActionName)
        → c.action_name ≡ n
        → session_authorize fuel s base id n c.target ≡ none
        → IsAllowedLeaf fuel s id c
    one c no_action e h = refuse (unfold session_authorize in h)
      where
        refuse : {X : Type 0} → some read_only ≡ none → X
        refuse g = cc
    one c (unknown_action name) e h = refuse (unfold session_authorize in h)
      where
        refuse : {X : Type 0} → some read_only ≡ none → X
        refuse g = cc
    one c (action a) e h =
        let (x, y, may) = session_authorize-none fuel s base id a c.target h in (a, e, x, y, may)

    each :
        (changes : List Change)
        → All (λ c. session_authorize fuel s base id c.action_name c.target ≡ none) changes
        → All (IsAllowedLeaf fuel s id) changes
    each [] h = tt
    each (c ∷ changes) (p, h) = (one c c.action_name refl p, each changes h)
