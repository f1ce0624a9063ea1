-- ===== src/ScopedRead/Tests.antt =====
-- The theorems on the reads of a session, at a session of the sample server.
use open_lore.Prelude.{
  ◌≡◌, refl, ◌↔◌, ◌⊎◌, inl, inr, true, false, List, [], ◌∷◌, ◌==◌, In, Text, text, has_prefix,
  lookup, ok,
}
use open_lore.Config.{DocsetSpec, PathMapping, display_path}
use open_lore.Path.{clean_path, path_within_root}
use open_lore.Path.Clean.{IsClean, clean_path-IsClean}
use open_lore.Vfs.{FileInfo}
use open_lore.AuthorizationStore.{resolve_authorization}
use open_lore.Server.Sample.{sample_server, sample_auth, sample_fs, ann, file_info}
use open_lore.Server.Policy.{current_policy}
use open_lore.Server.Access.{effective_grant_names}
use open_lore.Server.Governing.{readable_roots, docset_roots}
use open_lore.Server.Governing.Readable.{IsGrantedRoot}
use open_lore.ScopedRead.{
  ScopedReadFs, new_scoped_read_fs, within, readable, read_file, read_dir, child_path,
}
use open_lore.ScopedRead.Within.{AllClean, within_sound}
use open_lore.ScopedRead.Session.{session_fs, LeadsToRoot, read_file-IsGranted, read_dir_iff}

-- A session that may read "/docs" but not the docset nested in it.
abbrev confined : ScopedReadFs
confined = record {
  base = sample_fs;
  roots = text "/docs" ∷ [];
  boundaries = text "/docs" ∷ text "/docs/secret" ∷ [];
}

docs_IsClean : IsClean (text "/docs")
unfolding clean_path ◌==◌
docs_IsClean = clean_path-IsClean (text "/docs")

secret_IsClean : IsClean (text "/docs/secret")
unfolding clean_path ◌==◌
secret_IsClean = clean_path-IsClean (text "/docs/secret")

roots_AllClean : AllClean confined.roots
roots_AllClean r (inl e) = rw e docs_IsClean
roots_AllClean r (inr x) = elim x [ ]

boundaries_AllClean : AllClean confined.boundaries
boundaries_AllClean r (inl e) = rw e docs_IsClean
boundaries_AllClean r (inr (inl e)) = rw e secret_IsClean
boundaries_AllClean r (inr (inr x)) = elim x [ ]

file_within : within confined (text "/docs/a.md") ≡ true
unfolding within path_within_root ◌==◌ clean_path has_prefix
file_within = refl

-- The docset nested in the root is carved out of it.
secret_outside : within confined (text "/docs/secret/x") ≡ false
unfolding within path_within_root ◌==◌ clean_path has_prefix
secret_outside = refl

within_sound_example :
    (root : Text) × In root confined.roots
    × (path_within_root root (clean_path (text "/docs/a.md")) ≡ true)
    × ((b : Text)
        → In b confined.boundaries
        → path_within_root b (clean_path (text "/docs/a.md")) ≡ true
        → path_within_root b root ≡ true)
within_sound_example =
    within_sound confined (text "/docs/a.md") roots_AllClean boundaries_AllClean file_within

listing : read_dir confined (text "/docs") ≡ ok (file_info (text "a.md") false ∷ [])
unfolding read_dir readable path_within_root ◌==◌ clean_path has_prefix
listing = refl

read_dir_iff_example :
    ((within confined (text "/docs") ≡ true) ⊎ LeadsToRoot confined (text "/docs"))
    × ((entries : List FileInfo) × (sample_fs.read_dir (text "/docs") ≡ ok entries)
        × ((e : FileInfo)
            → In e (file_info (text "a.md") false ∷ []) ↔ (
                In e entries
                × ((within confined (child_path (clean_path (text "/docs")) e.file_name) ≡ true)
                    ⊎ LeadsToRoot confined (child_path (clean_path (text "/docs")) e.file_name)))))
read_dir_iff_example =
    read_dir_iff confined (text "/docs") (file_info (text "a.md") false ∷ []) listing

contents : read_file (session_fs sample_server ann sample_fs) (text "/docs/a.md") ≡ ok (text "hi")
unfolding read_file within ◌==◌ new_scoped_read_fs readable_roots effective_grant_names
    current_policy resolve_authorization lookup has_prefix path_within_root clean_path display_path
    docset_roots
contents = refl

read_file-IsGranted_example :
    (root : Text) × (IsGrantedRoot sample_server ann root
      ⊎ In root sample_server.system_mount_paths)
    × (path_within_root (clean_path root) (clean_path (text "/docs/a.md")) ≡ true)
    × ((d : Text × DocsetSpec) (pm : PathMapping)
        → In d sample_auth.docsets
        → In pm d.1.paths
        → path_within_root (display_path pm) (clean_path (text "/docs/a.md")) ≡ true
        → path_within_root (display_path pm) (clean_path root) ≡ true)
read_file-IsGranted_example =
    read_file-IsGranted sample_server ann sample_fs (text "/docs/a.md") (text "hi") contents
