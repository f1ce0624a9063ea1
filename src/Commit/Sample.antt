-- ===== src/Commit/Sample.antt =====
-- A home directory in memory that can be read too, one that refuses writes, and hypotheses of commits.
use open_lore.Prelude.{
  Bool, true, false, none, some, [], ◌∷◌, ◌==◌, if◌then◌else◌, Text, text, lookup, put, err, ok,
}
use open_lore.Vfs.{not_exist, permission, FileInfo, FileSystem}
use open_lore.Snapshot.{Substrate}
use open_lore.ScopedWrite.Sample.{Files, memory}

abbrev pub info_of : Text → Bool → FileInfo
info_of p is_dir = record {
  file_name = p;
  file_path = p;
  content = [];
  dir = is_dir;
  file_mod_time = 0;
  file_size = 0;
  link_target = [];
}

abbrev pub home : Text
home = text "/home/ann"

abbrev pub view_of : Files → FileSystem
view_of files = record {
  stat = λ p.
      if p == home
      then ok (info_of p true)
      else (elim (lookup p files) [ none ↦ err not_exist | some bytes ↦ ok (info_of p false) ]);
  read_dir = λ p. err not_exist;
  read_file = λ p. elim (lookup p files) [ none ↦ err not_exist | some bytes ↦ ok bytes ];
}

abbrev pub readable_memory : Substrate Files
readable_memory = record { writer = memory; view = view_of; xattr_reader = none }

-- A disk on which "/home/ann/b.md" cannot be written.
abbrev pub refusing : Substrate Files
refusing = record {
  writer = record memory {
    write_file_atomic = λ p bytes opts st.
        if p == text "/home/ann/b.md" then (err permission, st) else (ok bytes, put p bytes st);
  };
  view = view_of;
  xattr_reader = none;
}

abbrev pub one_file : Files
one_file = (text "/home/ann/a.md", text "hi") ∷ []
