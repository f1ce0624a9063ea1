-- ===== src/Server/Tests.antt =====
-- The theorems on the gates of the server, at the sample server.
use open_lore.Prelude.{
  ◌≡◌, refl, sym, ap, ◌∙◌, ◌≢◌, ◌↔◌, ◌⊎◌, inl, inr, true, false, none, some, [], ◌∷◌, ◌==◌,
  Bool-cases, In, All, Text, text, eq_iff, has_prefix, lookup, put, ok,
}
use open_lore.Config.{DocsetSpec, PathMapping, display_path, primary_display_path}
use open_lore.Path.{clean_path, path_within_root, replace_path_root}
use open_lore.Vfs.{ChangeAction, write}
use open_lore.Grants.{GrantType, ro_grant, rw_grant}
use open_lore.Server.{Server}
use open_lore.Server.Sample.{
  sample_server, sample_auth, ann, guest, docs, secret, ann_home, sample_grants, bot_principal,
}
use open_lore.AuthorizationStore.{AuthorizationPolicy, resolve_authorization}
use open_lore.AuthorizationStore.Delegation.{IsOutcome, resolve_authorization-IsOutcome}
use open_lore.Server.Policy.{current_policy, capability_denial, principal_of}
use open_lore.Server.Policy.Roles.{IsAccepted, current_policy-IsAccepted}
use open_lore.Server.Policy.Capability.{IsOpen, Allows, capability_denial-none}
use open_lore.Server.Access.{effective_grant_names}
use open_lore.Server.Access.Sources.{HasGrant, effective_grant_names-HasGrant}
use open_lore.Server.Governing.{
  canonical_path, most_specific_docset, grants_for_path, readable_roots,
}
use open_lore.Server.Governing.Canonical.{HasTargets}
use open_lore.Server.Governing.Boundary.{
  Covers, IsLongest, HasDistinctNames, SameMembers, most_specific_docset-IsLongest,
  most_specific_docset-within, most_specific_docset-order,
}
use open_lore.Server.Governing.Readable.{IsGrantedRoot, readable_roots_sound}
use open_lore.Server.Writes.{identity_write_error}
use open_lore.Server.Writes.Gate.{fresh, MayWrite, identity_write_error-none_iff}
use open_lore.Changeset.{leaves}
use open_lore.ScopedWrite.{ScopedWriteFs, admit_change_set}
use open_lore.ScopedWrite.Gated.{IsRefused}
use open_lore.ScopedWrite.Sample.{Files, memory, moving, identity_hash}
use open_lore.Server.SessionWrites.{session_write_fs, IsAllowedLeaf, session_admits-IsAllowedLeaf}
use open_lore.Server.Sample.{sample_fs}
use open_lore.Server.Startup.{validate_grants}
use open_lore.Server.Startup.Guest.{IsHonest, guest_cannot_write}

abbrev ann_policy : AuthorizationPolicy
ann_policy = record {
  identity_name = text "ann";
  roles = text "editor" ∷ [];
  home_docset = text "ann";
  deny_docsets = [];
  deny_capabilities = [];
}

-- Ann's, narrowed to what the delegate "bot" may do.
abbrev bot_policy : AuthorizationPolicy
bot_policy = record {
  identity_name = text "ann";
  roles = text "editor" ∷ [];
  home_docset = text "ann";
  deny_docsets = text "ann" ∷ [];
  deny_capabilities = text "delete" ∷ [];
}

bot_has_policy : resolve_authorization sample_auth bot_principal ≡ ok bot_policy
unfolding resolve_authorization ◌==◌ lookup
bot_has_policy = refl

resolve_authorization-IsOutcome_example :
    IsOutcome sample_auth bot_principal (resolve_authorization sample_auth bot_principal)
resolve_authorization-IsOutcome_example = resolve_authorization-IsOutcome sample_auth bot_principal

ann_has_policy : current_policy sample_server ann ≡ ok ann_policy
unfolding current_policy resolve_authorization ◌==◌ lookup has_prefix
ann_has_policy = refl

current_policy-IsAccepted_example :
    IsAccepted sample_auth (principal_of ann).identity_name ann_policy
current_policy-IsAccepted_example =
    current_policy-IsAccepted sample_server ann ann_policy ann_has_policy

ann_can_search : capability_denial sample_server ann_policy (text "search") ≡ none
unfolding capability_denial ◌==◌ lookup
ann_can_search = refl

capability_denial-none_example :
    (¬ In (text "search") ann_policy.deny_capabilities)
    × All (IsOpen sample_auth (text "search")) ann_policy.roles
    × ((name : Text) × In name ann_policy.roles × Allows sample_auth (text "search") name)
capability_denial-none_example =
    capability_denial-none sample_server ann_policy (text "search") ann_can_search

-- A path in the docset nested in "docs", by way of the alias of "docs".
abbrev nested : Text
nested = text "/d/secret/x"

sample_targets : HasTargets sample_auth.docsets
sample_targets = (inr (λ e. cc), (inl refl, (inl refl, tt)))

secret_governs : most_specific_docset sample_server nested ≡ some (text "secret", secret)
unfolding most_specific_docset path_within_root ◌==◌ display_path clean_path canonical_path
    has_prefix replace_path_root primary_display_path
secret_governs = refl

most_specific_docset-IsLongest_example :
    (pm : PathMapping) × Covers sample_server nested (text "secret", secret) pm
    × IsLongest sample_server nested (text "secret", secret) pm
most_specific_docset-IsLongest_example =
    most_specific_docset-IsLongest sample_server nested (text "secret", secret) secret_governs

abbrev docs_root : PathMapping
docs_root = record { source = text "/docs"; display = [] }

docs-Covers : Covers sample_server nested (text "docs", docs) docs_root
unfolding path_within_root ◌==◌ display_path clean_path canonical_path has_prefix replace_path_root
    primary_display_path
docs-Covers = (inl refl, inl refl, refl)

most_specific_docset-within_example :
    (pm : PathMapping) × Covers sample_server nested (text "secret", secret) pm
    × (path_within_root (display_path docs_root) (display_path pm) ≡ true)
most_specific_docset-within_example =
    most_specific_docset-within sample_server nested (text "secret", secret) (text "docs", docs)
      docs_root sample_targets secret_governs docs-Covers

-- The same server, whose docsets are visited in another order.
abbrev visited_otherwise : Server
visited_otherwise = record sample_server {
  auth = record sample_auth {
    docsets = (text "secret", secret) ∷ (text "docs", docs) ∷ (text "ann", ann_home) ∷ [];
  };
}

same_docsets : SameMembers sample_auth.docsets visited_otherwise.auth.docsets
same_docsets d = (there, back)
  where
    there : In d sample_auth.docsets → In d visited_otherwise.auth.docsets
    there (inl e) = inr (inl e)
    there (inr (inl e)) = inr (inr (inl e))
    there (inr (inr (inl e))) = inl e
    there (inr (inr (inr x))) = elim x [ ]

    back : In d visited_otherwise.auth.docsets → In d sample_auth.docsets
    back (inl e) = inr (inr (inl e))
    back (inr (inl e)) = inl e
    back (inr (inr (inl e))) = inr (inl e)
    back (inr (inr (inr x))) = elim x [ ]

same_name : {d e a b : Text × DocsetSpec} → d ≡ a → e ≡ b → d.0 ≡ e.0 → a.0 ≡ b.0
same_name p q same = cc

distinct_docsets : HasDistinctNames visited_otherwise.auth.docsets
distinct_docsets d e (inl p) (inl q) same = p ∙ sym q
distinct_docsets d e (inl p) (inr (inl q)) same = cc (same_name p q same)
distinct_docsets d e (inl p) (inr (inr (inl q))) same = cc (same_name p q same)
distinct_docsets d e (inl p) (inr (inr (inr x))) same = elim x [ ]
distinct_docsets d e (inr (inl p)) (inl q) same = cc (same_name p q same)
distinct_docsets d e (inr (inl p)) (inr (inl q)) same = p ∙ sym q
distinct_docsets d e (inr (inl p)) (inr (inr (inl q))) same = cc (same_name p q same)
distinct_docsets d e (inr (inl p)) (inr (inr (inr x))) same = elim x [ ]
distinct_docsets d e (inr (inr (inl p))) (inl q) same = cc (same_name p q same)
distinct_docsets d e (inr (inr (inl p))) (inr (inl q)) same = cc (same_name p q same)
distinct_docsets d e (inr (inr (inl p))) (inr (inr (inl q))) same = p ∙ sym q
distinct_docsets d e (inr (inr (inl p))) (inr (inr (inr x))) same = elim x [ ]
distinct_docsets d e (inr (inr (inr x))) n same = elim x [ ]

same_path : canonical_path sample_server nested ≡ canonical_path visited_otherwise nested
unfolding path_within_root ◌==◌ display_path clean_path canonical_path has_prefix replace_path_root
    primary_display_path
same_path = refl

most_specific_docset-order_example :
    most_specific_docset sample_server nested ≡ most_specific_docset visited_otherwise nested
most_specific_docset-order_example =
    most_specific_docset-order sample_server visited_otherwise nested same_docsets distinct_docsets
      same_path

abbrev note : Text
note = text "/home/ann/a.md"

ann_owns : grants_for_path sample_server ann note ≡ some (ann_home, rw_grant ∷ [])
unfolding grants_for_path effective_grant_names current_policy resolve_authorization lookup
    most_specific_docset path_within_root ◌==◌ display_path clean_path canonical_path has_prefix
    replace_path_root primary_display_path
ann_owns = refl

has_rw : In (text "rw") (effective_grant_names sample_server ann (text "ann")).0
unfolding effective_grant_names current_policy resolve_authorization lookup has_prefix ◌==◌
has_rw = inl refl

effective_grant_names-HasGrant_example : HasGrant sample_server ann (text "ann") (text "rw")
effective_grant_names-HasGrant_example =
    effective_grant_names-HasGrant sample_server ann (text "ann") (text "rw") refl has_rw

docs_readable : In (text "/docs") (readable_roots sample_server ann)
unfolding readable_roots effective_grant_names current_policy resolve_authorization lookup
    path_within_root ◌==◌ display_path clean_path canonical_path has_prefix replace_path_root
    primary_display_path
docs_readable = inl refl

readable_roots_sound_example :
    IsGrantedRoot sample_server ann (text "/docs")
    ⊎ In (text "/docs") sample_server.system_mount_paths
readable_roots_sound_example = readable_roots_sound sample_server ann (text "/docs") docs_readable

identity_write_error-none_iff_example :
    (identity_write_error 1 sample_server ann write note ≡ none)
    ↔ MayWrite 1 sample_server (fresh ann) write (canonical_path sample_server note)
identity_write_error-none_iff_example = identity_write_error-none_iff 1 sample_server ann write note

sample_is_valid : validate_grants sample_server ≡ ok tt
unfolding validate_grants put lookup path_within_root ◌==◌ display_path clean_path canonical_path
    has_prefix replace_path_root primary_display_path
sample_is_valid = refl

ro_rw : text "ro" ≢ text "rw"
unfolding ◌==◌
ro_rw e = cc ((eq_iff (text "ro") (text "rw")).1 e)

some_injective : {x y : GrantType} → some x ≡ some y → x ≡ y
some_injective h = cc

sample-IsHonest : IsHonest sample_grants
unfolding lookup ◌==◌
sample-IsHonest name g found reads_only = elim (Bool-cases (text "ro" == name)) [
  | inl e ↦ honest_ro g (rw (e, lookup) at found)
  | inr e ↦ elim (Bool-cases (text "rw" == name)) [
    | inl f ↦ dishonest g (rw (e, f, lookup) at found) reads_only
    | inr f ↦ nothing (rw (e, f, lookup) at found)
  ]
]
  where
    nothing : {X : Type 0} → none ≡ some g → X
    nothing h = cc

    dishonest : {X : Type 0} (g : GrantType) → some rw_grant ≡ some g → g.allows_write ≡ false → X
    dishonest g h n = elim (is_false h n) [ ]
      where
        is_false : some rw_grant ≡ some g → g.allows_write ≡ false → ⊥
        is_false h n = cc (ap (λ (x : GrantType). x.allows_write) (some_injective h), n)

    honest_ro :
        (g : GrantType)
        → some ro_grant ≡ some g
        → (g.name ≢ text "rw")
          × ((ds : DocsetSpec) (action : ChangeAction) (p : Text) → g.can_write ds action p ≡ false)
    honest_ro g h = (
      λ e. ro_rw (ap (λ (x : GrantType). x.name) (some_injective h) ∙ e),
      λ ds action p. cc (ap (λ (x : GrantType). x.can_write ds action p) (some_injective h)),
    )

guest_named : (principal_of guest).identity_name ≡ text "guest"
unfolding principal_of ◌==◌
guest_named = refl

guest_cannot_write_example :
    identity_write_error 1 sample_server guest write (text "/docs/a.md") ≢ none
guest_cannot_write_example =
    guest_cannot_write 1 sample_server guest write (text "/docs/a.md") refl sample_is_valid
      sample-IsHonest guest_named

-- Ann's session submits a move within her home.
session_admits-IsAllowedLeaf_example :
    ((sample_server.auth_enforced ≡ false)
      × (session_write_fs 3 sample_server sample_fs ann (some memory) ≡ none))
    ⊎ ((sample_server.auth_enforced ≡ true)
        × ((gate : ScopedWriteFs Files) × (session_write_fs 3 sample_server sample_fs ann
                (some memory)
              ≡ some gate)
            × (gate.inner ≡ some memory)
            × (All (IsAllowedLeaf 3 sample_server ann) (leaves moving)
                ⊎ IsRefused [] (admit_change_set identity_hash gate moving []))))
session_admits-IsAllowedLeaf_example =
    session_admits-IsAllowedLeaf identity_hash 3 sample_server sample_fs ann (some memory) moving []
