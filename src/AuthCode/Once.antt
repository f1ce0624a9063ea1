-- ===== src/AuthCode/Once.antt =====
-- pkg/openlore/tokenendpoint.go: `Consume` after `Issue`.
use open_lore.Prelude.{
  ℕ, ◌+◌, ◌≡◌, refl, ◌∙◌, ◌⊎◌, inl, inr, true, false, none, some, ◌==◌, if◌then◌else◌, ltb,
  Bool-cases, Text, eq_refl, lookup, put, delete, lookup-put, lookup-delete,
}
use open_lore.AuthCode.{AuthCode, Codes, code_ttl, issue_code, consume}

pub lookup-delete_self : (code : Text) (codes : Codes) → lookup code (delete code codes) ≡ none
lookup-delete_self code codes = rw (lookup-delete code code codes, eq_refl code) refl

pub consume-some :
    (code : Text) (now : ℕ) (codes : Codes) (c : AuthCode)
    → lookup code codes ≡ some c
    → consume code now codes ≡ ((if ltb c.expires now then none else some c), delete code codes)
unfolding consume
consume-some code now codes c e = rw (e, consume) refl

pub consume-none :
    (code : Text) (now : ℕ) (codes : Codes)
    → lookup code codes ≡ none
    → consume code now codes ≡ (none, codes)
unfolding consume
consume-none code now codes e = rw (e, consume) refl

-- A code that is issued at one time and presented at another gives back what it was issued for, with
-- the expiry, if no more than 60 seconds have passed, and nothing after that; either way it is gone,
-- so that no later presentation gives anything, and other codes are as before.
pub consume-issue_code :
    (code other : Text) (issued now later : ℕ) (c : AuthCode) (codes : Codes)
    → let (given, left) = consume code now (issue_code code issued c codes) in
      (given ≡ (
        if ltb (issued + code_ttl) now
        then none
        else some (record c { expires = issued + code_ttl })))
      × ((consume code later left).0 ≡ none)
      × (lookup other left ≡ (if code == other then none else lookup other codes))
unfolding issue_code
consume-issue_code code other issued now later c codes =
    let c' : AuthCode = record c { expires = issued + code_ttl } in
    let found : lookup code (put code c' codes) ≡ some c' =
      rw (lookup-put code code c' codes, eq_refl code) refl in
    let k = consume-some code now (put code c' codes) c' found in
    rw k (
      refl,
      rw
          (consume-none code later (delete code (put code c' codes))
            (lookup-delete_self code (put code c' codes)))
          refl,
      lookup-delete code other (put code c' codes) ∙ without (Bool-cases (code == other)),
    )
  where
    without :
        ((code == other) ≡ true) ⊎ ((code == other) ≡ false)
        → (if code == other
            then none
            else lookup other (put code (record c { expires = issued + code_ttl }) codes))
          ≡ (if code == other then none else lookup other codes)
    without (inl e) = rw e refl
    without (inr e) =
        rw (lookup-put code other (record c { expires = issued + code_ttl }) codes, e) refl
