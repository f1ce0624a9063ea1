-- ===== src/Grants.antt =====
-- pkg/openlore/grants.go, and the grant that pkg/openlore/inbox.go contributes. A grant type is an
-- interface in the source, and so may be any record of these four functions here.
use open_lore.Prelude.{
  Bool, true, false, ◌||◌, List, [], ◌∷◌, ◌++◌, ◌==◌, if◌then◌else◌, Text, text, has_prefix, put,
}
use open_lore.Path.{slash, clean_path}
use open_lore.Config.{DocsetSpec}
use open_lore.Vfs.{ChangeAction, remove, remove_all}

pub record GrantType : Type 0 where
  pub name : Text
  pub can_read : DocsetSpec → Text → Bool
  pub allows_write : Bool
  pub can_write : DocsetSpec → ChangeAction → Text → Bool

abbrev pub GrantRegistry : Type 0
GrantRegistry = List (Text × GrantType)

-- register; `get` is `lookup`
unfoldable pub register : GrantType → GrantRegistry → GrantRegistry
register g types = put g.name g types

abbrev pub ro_grant : GrantType
ro_grant = record {
  name = text "ro";
  can_read = λ ds p. true;
  allows_write = false;
  can_write = λ ds action p. false;
}

abbrev pub rw_grant : GrantType
rw_grant = record {
  name = text "rw";
  can_read = λ ds p. true;
  allows_write = true;
  can_write = λ ds action p. true;
}

-- newGrantRegistry
unfoldable pub new_grant_registry : GrantRegistry
unfolding register
new_grant_registry = register rw_grant (register ro_grant [])

-- inboxPath: an absolute inbox, or one below the first display root
unfoldable pub inbox_path : DocsetSpec → Text
inbox_path ds =
    if ds.inbox == []
    then []
    else if has_prefix ds.inbox (text "/")
    then clean_path ds.inbox
    else elim ds.paths [
      | [] ↦ []
      | pm ∷ rest ↦
          clean_path ((if pm.display == [] then pm.source else pm.display) ++ slash ∷ ds.inbox)
    ]

-- publishGrant.CanWrite
unfoldable pub publish_can_write : DocsetSpec → ChangeAction → Text → Bool
unfolding inbox_path
publish_can_write ds remove p = false
publish_can_write ds remove_all p = false
publish_can_write ds _ p =
    let inbox = inbox_path ds in
    let clean = clean_path p in
    if inbox == [] then false else clean == inbox || has_prefix clean (inbox ++ text "/")

abbrev pub publish_grant : GrantType
publish_grant = record {
  name = text "publish";
  can_read = λ ds p. true;
  allows_write = true;
  can_write = publish_can_write;
}
