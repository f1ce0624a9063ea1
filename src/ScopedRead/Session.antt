-- ===== src/ScopedRead/Session.antt =====
-- The read filesystem of a session, with the roots that the server computes for its caller.
use open_lore.Prelude.{
  ℕ, ◌≡◌, refl, ap, ◌≢◌, ◌↔◌, ◌⊎◌, inl, inr, true, false, [], ◌∷◌, ◌++◌, ◌==◌, Bool-cases, length,
  length-append, text, eq_iff, has_prefix, has_prefix_iff, any-In, In-any, List, map, arith, keep,
  In, In-map, map-In, keep-In, Text, Result, ◌>>=◌, ok, err,
}
use open_lore.Config.{DocsetSpec, PathMapping, display_path}
use open_lore.Path.{slash, clean_path, path_within_root}
use open_lore.Path.Clean.{clean_path-IsClean, clean_path_of_IsClean}
use open_lore.Vfs.{Error, FileInfo, FileSystem}
use open_lore.Identity.{Identity}
use open_lore.Server.{Server}
use open_lore.Server.Governing.{readable_roots, docset_roots}
use open_lore.Server.Governing.Readable.{IsGrantedRoot, readable_roots_sound, docset_roots-In}
use open_lore.Server.Governing.Canonical.{display_path-IsClean}
use open_lore.ScopedRead.{
  ScopedReadFs, new_scoped_read_fs, within, ancestor, readable, child_path, read_file, read_dir,
}
use open_lore.ScopedRead.Within.{AllClean, within_sound}

-- The part of `buildSessionFS` (pkg/openlore/server.go) that confines reads.
abbrev pub session_fs : Server → Identity → FileSystem → ScopedReadFs
session_fs s id base = new_scoped_read_fs base (readable_roots s id) (docset_roots s.auth.docsets)

session_AllClean : (roots : List Text) → AllClean (map clean_path roots)
session_AllClean roots r m =
    let (raw, k, e) = In-map clean_path r roots m in rw e (clean_path-IsClean raw)

-- Reading a file succeeds only inside a root that is a system mount or belongs to a docset with a
-- grant of the caller to read it, and every docset root around the file contains that root: a grant
-- on a docset never reaches into a docset nested in it.
pub read_file-IsGranted :
    (s : Server) (id : Identity) (base : FileSystem) (p : Text) (content : List ℕ)
    → read_file (session_fs s id base) p ≡ ok content
    → (root : Text) × (IsGrantedRoot s id root ⊎ In root s.system_mount_paths)
      × (path_within_root (clean_path root) (clean_path p) ≡ true)
      × ((d : Text × DocsetSpec) (pm : PathMapping)
          → In d s.auth.docsets
          → In pm d.1.paths
          → path_within_root (display_path pm) (clean_path p) ≡ true
          → path_within_root (display_path pm) (clean_path root) ≡ true)
unfolding read_file new_scoped_read_fs
read_file-IsGranted s id base p content e =
    let fs = session_fs s id base in
    let (r, m, w, deep) =
      within_sound fs p (session_AllClean (readable_roots s id))
        (session_AllClean (docset_roots s.auth.docsets)) (ground arith) in
    let (root, k, same) = In-map clean_path r (readable_roots s id) m in
    (
      root,
      readable_roots_sound s id root k,
      rw (← same) w,
      λ d pm md mp v.
          rw (← same, ← clean_path_of_IsClean (display_path pm) (display_path-IsClean pm))
            (deep (clean_path (display_path pm))
              (map-In clean_path (display_path pm) (docset_roots s.auth.docsets)
                (docset_roots-In s.auth.docsets d pm md mp))
              (rw (clean_path_of_IsClean (display_path pm) (display_path-IsClean pm)) v)),
    )

ok-map :
    {A B : Type 0} (r : Result Error A) (f : A → B) (b : B)
    → (r >>= λ a. ok (f a)) ≡ ok b
    → (a : A) × (r ≡ ok a) × (f a ≡ b)
ok-map (ok a) f b e = (a, refl, cc)
ok-map (err x) f b e = cc

has_prefix_longer : (s : Text) (c : ℕ) → has_prefix s (s ++ c ∷ []) ≡ false
has_prefix_longer s c = elim (Bool-cases (has_prefix s (s ++ c ∷ []))) [
  | inr e ↦ e
  | inl e ↦
      let (rest, same) = (has_prefix_iff s (s ++ c ∷ [])).0 e in
      absurd
        (omega (arith, ap length same, length-append (s ++ c ∷ []) rest, length-append s (c ∷ [])))
]

-- The path is "/" or has a root of the session strictly below it.
abbrev pub LeadsToRoot : ScopedReadFs → Text → Type 0
LeadsToRoot s p =
    (clean_path p ≡ text "/")
    ⊎ ((root : Text) × In root s.roots
        × (path_within_root (clean_path p) root ≡ true)
        × (root ≢ clean_path p))

ancestor_iff : (s : ScopedReadFs) (p : Text) → (ancestor s p ≡ true) ↔ LeadsToRoot s p
unfolding ancestor path_within_root
ancestor_iff s p = (to, from)
  where
    below : (clean : Text) (root : Text) → has_prefix root (clean ++ text "/") ≡ true → root ≢ clean
    below clean root k e = cc (rw e at k, has_prefix_longer clean slash)

    to : ancestor s p ≡ true → LeadsToRoot s p
    to h = elim (Bool-cases (clean_path p == text "/")) [
      | inl e ↦ inl ((eq_iff (clean_path p) (text "/")).0 e)
      | inr e ↦
          let (root, m, k) =
            any-In (λ root. has_prefix root (clean_path p ++ text "/")) s.roots
              (rw (e, ancestor) at h) in
          inr (root, m, ground arith, below (clean_path p) root k)
    ]

    from : LeadsToRoot s p → ancestor s p ≡ true
    from (inl e) = rw ((eq_iff (clean_path p) (text "/")).1 e, ancestor) refl
    from (inr (root, m, w, n)) = elim (Bool-cases (clean_path p == text "/")) [
      | inl e ↦ rw (e, ancestor) refl
      | inr e ↦
          rw (e, ancestor)
            (In-any (λ root. has_prefix root (clean_path p ++ text "/")) s.roots root m
              (ground (arith, eq_iff root (clean_path p))))
    ]

readable_iff :
    (s : ScopedReadFs) (p : Text) → (readable s p ≡ true) ↔ ((within s p ≡ true) ⊎ LeadsToRoot s p)
unfolding readable
readable_iff s p = (
  λ h. elim (Bool-cases (within s p)) [
    | inl e ↦ inl e
    | inr e ↦ inr ((ancestor_iff s p).0 (ground arith))
  ],
  λ h. elim h [ inl e ↦ ground arith | inr l ↦ ground (arith, (ancestor_iff s p).1 l) ],
)

-- A directory is listed only where it can be read or leads to a root of the session, as "/" does and
-- each path with a root strictly below it; and the listing holds exactly the entries of the wrapped
-- directory that can be read or lead to a root.
pub read_dir_iff :
    (s : ScopedReadFs) (p : Text) (out : List FileInfo)
    → read_dir s p ≡ ok out
    → ((within s p ≡ true) ⊎ LeadsToRoot s p)
      × ((entries : List FileInfo) × (s.base.read_dir p ≡ ok entries)
          × ((e : FileInfo)
              → In e out ↔ (
                  In e entries
                  × ((within s (child_path (clean_path p) e.file_name) ≡ true)
                      ⊎ LeadsToRoot s (child_path (clean_path p) e.file_name)))))
unfolding read_dir
read_dir_iff s p out h =
    let shown = λ (e : FileInfo). readable s (child_path (clean_path p) e.file_name) in
    let (entries, base, same) = ok-map (s.base.read_dir p) (keep shown) out (ground arith) in
    (
      (readable_iff s p).0 (ground arith),
      (
        entries,
        base,
        λ e.
            let kept : In e out ↔ (In e entries × (shown e ≡ true)) =
              rw (← same) (keep-In shown e entries) in
            let seen = readable_iff s (child_path (clean_path p) e.file_name) in
            (λ m. let (k, w) = kept.0 m in (k, seen.0 w), λ m. kept.1 (m.0, seen.1 m.1)),
      ),
    )
