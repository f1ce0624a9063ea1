-- ===== src/Server/Policy/Capability.antt =====
-- When a capability is granted.
use open_lore.Prelude.{
  ◌≡◌, refl, sym, ◌∙◌, ◌⊎◌, inl, inr, Bool, true, false, ◌||◌, Option, none, some, List, [], ◌∷◌,
  arith, ◌==◌, if◌then◌else◌, Bool-cases, In, All, Text, text, eq_iff, lookup, contains,
  contains-In, In-contains,
}
use open_lore.Config.{AuthConfig, RoleSpec}
use open_lore.AuthorizationStore.{AuthorizationPolicy}
use open_lore.Server.{Server}
use open_lore.Server.Policy.{CapabilityDenial, scan_roles, capability_denial}

-- The role does not stand in the way: it is defined and does not deny the capability, or it is the
-- guest's and not defined.
abbrev pub IsOpen : AuthConfig → Text → Text → Type 0
IsOpen auth capability name =
    ((lookup name auth.roles ≡ none) × (name ≡ text "guest"))
    ⊎ ((role : RoleSpec) × (lookup name auth.roles ≡ some role)
        × (¬ In capability role.deny.capabilities))

-- The role is defined and allows the capability.
abbrev pub Allows : AuthConfig → Text → Text → Type 0
Allows auth capability name =
    (role : RoleSpec) × (lookup name auth.roles ≡ some role) × In capability role.allow.capabilities

abbrev step_denial :
    AuthConfig → Text → Bool → Bool → Text → List Text → Option RoleSpec → Option CapabilityDenial
step_denial auth capability allowed some_role name names none =
    if name == text "guest"
    then scan_roles auth capability allowed some_role names
    else some (CapabilityDenial.undefined_role name)
step_denial auth capability allowed some_role name names (some role) =
    if contains role.deny.capabilities capability
    then some (CapabilityDenial.role_denies name)
    else scan_roles auth capability (allowed || contains role.allow.capabilities capability) true
        names

scan_roles-step :
    (auth : AuthConfig) (capability : Text) (allowed some_role : Bool) (name : Text)
    (names : List Text)
    → scan_roles auth capability allowed some_role (name ∷ names)
      ≡ step_denial auth capability allowed some_role name names (lookup name auth.roles)
unfolding scan_roles
scan_roles-step auth capability allowed some_role name names = go (lookup name auth.roles)
  where
    go :
        (o : Option RoleSpec)
        → (let r : Option CapabilityDenial = elim o [
          | none ↦
              if name == text "guest"
              then scan_roles auth capability allowed some_role names
              else some (CapabilityDenial.undefined_role name)
          | some role ↦
              if contains role.deny.capabilities capability
              then some (CapabilityDenial.role_denies name)
              else scan_roles auth capability
                  (allowed || contains role.allow.capabilities capability)
                  true
                  names
        ] in
            r)
          ≡ step_denial auth capability allowed some_role name names o
    go none = refl
    go (some role) = refl

-- What the loop asks of the roles.
abbrev Grants : AuthConfig → Text → Bool → List Text → Type 0
Grants auth capability allowed names =
    All (IsOpen auth capability) names
    × ((allowed ≡ true) ⊎ ((name : Text) × In name names × Allows auth capability name))

scan_roles_sound :
    (auth : AuthConfig) (capability : Text) (allowed some_role : Bool) (names : List Text)
    → scan_roles auth capability allowed some_role names ≡ none
    → Grants auth capability allowed names
scan_roles_sound auth capability allowed some_role [] h =
    (tt, inl (unfold scan_roles in ground arith))
scan_roles_sound auth capability allowed some_role (name ∷ names) h =
    go (lookup name auth.roles) refl
      (sym (scan_roles-step auth capability allowed some_role name names) ∙ h)
      (scan_roles_sound auth capability allowed some_role names)
      (λ role.
        scan_roles_sound auth capability (allowed || contains role.allow.capabilities capability)
          true names)
  where
    later :
        {b : Bool}
        → Grants auth capability b names
        → IsOpen auth capability name
        → ((b ≡ true) → (allowed ≡ true) ⊎ Allows auth capability name)
        → Grants auth capability allowed (name ∷ names)
    later (opens, inr (n, m, a)) here why = ((here, opens), inr (n, inr m, a))
    later (opens, inl b) here why = elim (why b) [
      | inl a ↦ ((here, opens), inl a)
      | inr a ↦ ((here, opens), inr (name, inl refl, a))
    ]

    go :
        (o : Option RoleSpec)
        → lookup name auth.roles ≡ o
        → step_denial auth capability allowed some_role name names o ≡ none
        → (scan_roles auth capability allowed some_role names ≡ none
            → Grants auth capability allowed names)
        → ((role : RoleSpec)
            → scan_roles auth capability
                (allowed || contains role.allow.capabilities capability)
                true
                names
              ≡ none
            → Grants auth capability (allowed || contains role.allow.capabilities capability) names)
        → Grants auth capability allowed (name ∷ names)
    go none e k ih ih' =
        later (ih (ground arith)) (inl (e, (eq_iff name (text "guest")).0 (ground arith)))
          (λ b. inl b)
    go (some role) e k ih ih' =
        later (ih' role (ground arith))
          (inr (role, e, λ m. ground (arith, In-contains role.deny.capabilities capability m)))
          (λ b. elim (Bool-cases (contains role.allow.capabilities capability)) [
            | inl c ↦ inr (role, e, contains-In role.allow.capabilities capability c)
            | inr c ↦ inl (ground arith)
          ])

-- If `capabilityDenial` finds no reason against a capability, then the policy does not deny it, no
-- role of the policy denies it, every role but "guest" is defined, and some role allows it.
pub capability_denial-none :
    (s : Server) (policy : AuthorizationPolicy) (capability : Text)
    → capability_denial s policy capability ≡ none
    → (¬ In capability policy.deny_capabilities)
      × All (IsOpen s.auth capability) policy.roles
      × ((name : Text) × In name policy.roles × Allows s.auth capability name)
unfolding capability_denial
capability_denial-none s policy capability h =
    let (opens, why) = scan_roles_sound s.auth capability false false policy.roles (ground arith) in
    (
      λ m. ground (arith, In-contains policy.deny_capabilities capability m),
      opens,
      elim why [ inl f ↦ absurd (cc) | inr a ↦ a ],
    )
