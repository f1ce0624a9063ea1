-- ===== src/Server/Sample.antt =====
-- A small server that the examples run on: a public docset at "/docs", the home of "ann" at
-- "/home/ann" with a docset nested in it, and the roles and grants that reach them.
use open_lore.Prelude.{
  Bool, true, false, none, some, List, [], ◌∷◌, ◌==◌, if◌then◌else◌, Text, text, ok, err,
}
use open_lore.Config.{DocsetSpec, AuthConfig}
use open_lore.AuthorizationStore.{AuthenticatedPrincipal, Claim}
use open_lore.Grants.{GrantRegistry, ro_grant, rw_grant}
use open_lore.Identity.{Identity}
use open_lore.Vfs.{not_exist, not_dir, FileInfo, FileSystem}
use open_lore.Server.{Server, file}

abbrev docset_at : Text → List (Text × Text) → List Text → DocsetSpec
docset_at root allow aliases = record {
  paths = record { source = root; display = [] } ∷ [];
  projection = none;
  access = record { allow = allow; deny = [] };
  config = none;
  aliases = aliases;
  inbox = [];
  readonly = none;
}

abbrev pub docs : DocsetSpec
docs =
    docset_at (text "/docs") ((text "guest", text "ro") ∷ (text "editor", text "rw") ∷ [])
      (text "/d" ∷ [])

abbrev pub ann_home : DocsetSpec
ann_home = docset_at (text "/home/ann") [] []

abbrev pub secret : DocsetSpec
secret = docset_at (text "/docs/secret") [] []

abbrev pub sample_auth : AuthConfig
sample_auth = record {
  docsets = (text "docs", docs) ∷ (text "ann", ann_home) ∷ (text "secret", secret) ∷ [];
  roles =
      (
        text "editor",
        record {
          allow = record { capabilities = text "search" ∷ [] };
          deny = record { capabilities = [] };
        },
      )
      ∷ [];
  identities =
      record {
        name = text "ann";
        roles = text "editor" ∷ [];
        home = text "ann";
        delegates =
            record {
              identity = text "bot";
              roles = some (text "editor" ∷ text "admin" ∷ []);
              deny_docsets = text "ann" ∷ [];
              deny_capabilities = text "delete" ∷ [];
            }
            ∷ [];
      }
      ∷ [];
}

abbrev pub file_info : Text → Bool → FileInfo
file_info name is_dir = record {
  file_name = name;
  file_path = [];
  content = [];
  dir = is_dir;
  file_mod_time = 0;
  file_size = 0;
  link_target = [];
}

-- One file, "/docs/a.md", and the directory of a docset that is nested there.
abbrev pub sample_fs : FileSystem
sample_fs = record {
  stat = λ p.
      if p == text "/docs/a.md"
      then ok (file_info (text "a.md") false)
      else if p == text "/docs"
      then ok (file_info (text "docs") true)
      else err not_exist;
  read_dir = λ p.
      if p == text "/docs"
      then ok (file_info (text "a.md") false ∷ file_info (text "secret") true ∷ [])
      else err not_dir;
  read_file = λ p. if p == text "/docs/a.md" then ok (text "hi") else err not_exist;
}

abbrev pub sample_grants : GrantRegistry
sample_grants = (text "ro", ro_grant) ∷ (text "rw", rw_grant) ∷ []

abbrev pub sample_server : Server
sample_server = record {
  auth_enforced = true;
  auth = sample_auth;
  readonly = false;
  grants = sample_grants;
  authorization_store = file;
  merge = sample_fs;
  mount_paths = [];
  system_mount_paths = [];
}

abbrev pub ann_principal : AuthenticatedPrincipal
ann_principal = record { identity_name = text "ann"; claims = [] }

-- The same, with a token that was given to a delegate.
abbrev pub bot_principal : AuthenticatedPrincipal
bot_principal = record {
  identity_name = text "ann";
  claims = (text "actor", Claim.string (text "bot")) ∷ [];
}

abbrev pub ann : Identity
ann = record {
  identity_name = text "ann";
  principal = ann_principal;
  policy_snapshot = none;
  scopes = text "full" ∷ [];
}

abbrev pub guest : Identity
guest = record {
  identity_name = text "guest";
  principal = record { identity_name = text "guest"; claims = [] };
  policy_snapshot = none;
  scopes = text "full" ∷ [];
}
