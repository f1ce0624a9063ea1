-- ===== src/Server/Governing/Boundary.antt =====
-- Which docset governs a path, and that a docset is a boundary which no grant on a docset around it
-- crosses.
use open_lore.Prelude.{
  ◌≤◌, ◌≡◌, refl, sym, ap, ◌∙◌, ◌≢◌, ◌↔◌, true, false, Option, none, some, List, length, In, Text,
  text_lt,
}
use open_lore.Config.{DocsetSpec, PathMapping, display_path}
use mathlib.Core.Path.{subst}
use open_lore.Path.{path_within_root}
use open_lore.Path.Within.{path_within_root_shorter}
use open_lore.Server.{Server}
use open_lore.Server.Governing.{Best, is_better, scan_docsets, canonical_path, most_specific_docset}
use open_lore.Server.Governing.Order.{is_better_total, is_better_bounds, is_better-none}
use open_lore.Server.Governing.Root.{From, scan_docsets-covers, scan_docsets-From}
use open_lore.Server.Governing.Canonical.{HasTargets, display_path-IsClean, canonical_path-IsClean}

-- The docset `d` is configured, and its root `pm` contains the canonical path of `p`.
abbrev pub Covers : Server → Text → Text × DocsetSpec → PathMapping → Type 0
Covers s p d pm =
    In d s.auth.docsets
    × In pm d.1.paths
    × (path_within_root (display_path pm) (canonical_path s p) ≡ true)

abbrev answer : Option Best → Option (Text × DocsetSpec)
answer none = none
answer (some b) = some (b.name, b.docset)

most_specific_docset-answer :
    (s : Server) (p : Text)
    → most_specific_docset s p ≡ answer (scan_docsets (canonical_path s p) none s.auth.docsets)
unfolding most_specific_docset
most_specific_docset-answer s p = go (scan_docsets (canonical_path s p) none s.auth.docsets)
  where
    go :
        (o : Option Best)
        → (elim o [ none ↦ none | some best ↦ some (best.name, best.docset) ]) ≡ answer o
    go none = refl
    go (some b) = refl

answer-some :
    (o : Option Best) (d : Text × DocsetSpec)
    → answer o ≡ some d
    → (b : Best) × (o ≡ some b) × ((b.name, b.docset) ≡ d)
answer-some none d e = cc
answer-some (some b) d e = (b, refl, cc)

best_of :
    (s : Server) (p : Text) (d : Text × DocsetSpec)
    → most_specific_docset s p ≡ some d
    → (b : Best) × (scan_docsets (canonical_path s p) none s.auth.docsets ≡ some b)
      × ((b.name, b.docset) ≡ d)
best_of s p d e = answer-some _ d (sym (most_specific_docset-answer s p) ∙ e)

-- The root `pm` of the docset `d` is preferred to every root that contains the path.
abbrev pub IsLongest : Server → Text → Text × DocsetSpec → PathMapping → Type 0
IsLongest s p d pm =
    (e : Text × DocsetSpec) (qm : PathMapping)
    → Covers s p e qm
    → (length (display_path qm) ≤ length (display_path pm))
      × (length (display_path qm) ≡ length (display_path pm) → text_lt e.0 d.0 ≡ false)

IsLongest-of_best :
    (s : Server) (p : Text) (b : Best)
    → scan_docsets (canonical_path s p) none s.auth.docsets ≡ some b
    → (pm : PathMapping) × Covers s p (b.name, b.docset) pm × IsLongest s p (b.name, b.docset) pm
IsLongest-of_best s p b found =
    let clean = canonical_path s p in
    let (listed, (pm, m, w, len)) =
      subst (From clean s.auth.docsets) found (scan_docsets-From clean s.auth.docsets) in
    (
      pm,
      (listed, m, w),
      λ e qm c. rw len (
          is_better_bounds (length (display_path qm)) e.0 b
            (rw found at (scan_docsets-covers clean none s.auth.docsets e qm c.0 c.1 c.2))),
    )

-- The docset that governs a path is configured, has a root that contains the canonical path, and
-- no root of any docset that contains it is longer, or as long with a lesser docset name.
pub most_specific_docset-IsLongest :
    (s : Server) (p : Text) (d : Text × DocsetSpec)
    → most_specific_docset s p ≡ some d
    → (pm : PathMapping) × Covers s p d pm × IsLongest s p d pm
most_specific_docset-IsLongest s p d e =
    let (b, found, same) = best_of s p d e in
    subst (λ x. (pm : PathMapping) × Covers s p x pm × IsLongest s p x pm) same
      (IsLongest-of_best s p b found)

-- A path that some docset root contains has a docset that governs it.
pub most_specific_docset-ne-none :
    (s : Server) (p : Text) (d : Text × DocsetSpec) (pm : PathMapping)
    → Covers s p d pm
    → most_specific_docset s p ≢ none
most_specific_docset-ne-none s p d pm (m, k, w) e =
    go (scan_docsets (canonical_path s p) none s.auth.docsets)
      (scan_docsets-covers (canonical_path s p) none s.auth.docsets d pm m k w)
      (sym (most_specific_docset-answer s p) ∙ e)
  where
    go :
        (o : Option Best) → is_better (length (display_path pm)) d.0 o ≡ false → answer o ≡ none → ⊥
    go none h a = cc (is_better-none (length (display_path pm)) d.0)
    go (some b) h a = cc

-- Where every docset with aliases has a path, every docset root that contains a path contains the
-- root that governs it: the governing docset lies inside all the others, so that it decides, and
-- not a docset around it.
pub most_specific_docset-within :
    (s : Server) (p : Text) (d e : Text × DocsetSpec) (qm : PathMapping)
    → HasTargets s.auth.docsets
    → most_specific_docset s p ≡ some d
    → Covers s p e qm
    → (pm : PathMapping) × Covers s p d pm
      × (path_within_root (display_path qm) (display_path pm) ≡ true)
most_specific_docset-within s p d e qm targets found c =
    let (pm, covers, longest) = most_specific_docset-IsLongest s p d found in
    (
      pm,
      covers,
      path_within_root_shorter (display_path qm) (display_path pm) (canonical_path s p)
          (display_path-IsClean qm) (display_path-IsClean pm) (canonical_path-IsClean s p targets)
          c.2 covers.2 (longest e qm c).0,
    )

-- The names of the docsets are the keys of a map.
abbrev pub HasDistinctNames : List (Text × DocsetSpec) → Type 0
HasDistinctNames docsets =
    (d e : Text × DocsetSpec) → In d docsets → In e docsets → d.0 ≡ e.0 → d ≡ e

abbrev pub SameMembers : {A : Type 0} → List A → List A → Type 0
SameMembers {A} xs ys = (a : A) → In a xs ↔ In a ys

not_preferred :
    (clean : Text) (b : Best) (docsets others : List (Text × DocsetSpec)) (c : Best)
    → SameMembers docsets others
    → scan_docsets clean none docsets ≡ some b
    → scan_docsets clean none others ≡ some c
    → is_better b.len b.name (some c) ≡ false
not_preferred clean b docsets others c same eb ec =
    let (listed, (pm, m, w, len)) =
      subst (From clean docsets) eb (scan_docsets-From clean docsets) in
    rw (← len) (
      rw ec at (
        scan_docsets-covers clean none others (b.name, b.docset) pm
          ((same (b.name, b.docset)).0 listed) m w))

answer-order :
    (clean : Text) (xs ys : List (Text × DocsetSpec)) (o q : Option Best)
    → SameMembers xs ys
    → HasDistinctNames ys
    → scan_docsets clean none xs ≡ o
    → scan_docsets clean none ys ≡ q
    → answer o ≡ answer q
answer-order clean xs ys none none same names eo eq = refl
answer-order clean xs ys none (some c) same names eo eq =
    let (listed, (pm, m, w, len)) = subst (From clean ys) eq (scan_docsets-From clean ys) in
    absurd (
      cc (
        is_better-none (length (display_path pm)) c.name,
        rw eo at (
            scan_docsets-covers clean none xs (c.name, c.docset) pm
              ((same (c.name, c.docset)).1 listed) m w),
      ))
answer-order clean xs ys (some b) none same names eo eq =
    let (listed, (pm, m, w, len)) = subst (From clean xs) eo (scan_docsets-From clean xs) in
    absurd (
      cc (
        is_better-none (length (display_path pm)) b.name,
        rw eq at (
            scan_docsets-covers clean none ys (b.name, b.docset) pm
              ((same (b.name, b.docset)).0 listed) m w),
      ))
answer-order clean xs ys (some b) (some c) same names eo eq =
    let (listed, rest) = subst (From clean xs) eo (scan_docsets-From clean xs) in
    let (listed', rest') = subst (From clean ys) eq (scan_docsets-From clean ys) in
    let (len, name) =
      is_better_total b c (not_preferred clean b xs ys c same eo eq)
        (not_preferred clean c ys xs b (λ a. ((same a).1, (same a).0)) eq eo) in
    ap some (
      names (b.name, b.docset) (c.name, c.docset) ((same (b.name, b.docset)).0 listed) listed' name)

-- Go visits a map in any order: two visits of the same docsets, with distinct names, find the same
-- governing docset for a path, where they agree on its canonical form.
pub most_specific_docset-order :
    (s t : Server) (p : Text)
    → SameMembers s.auth.docsets t.auth.docsets
    → HasDistinctNames t.auth.docsets
    → canonical_path s p ≡ canonical_path t p
    → most_specific_docset s p ≡ most_specific_docset t p
most_specific_docset-order s t p same names e =
    most_specific_docset-answer s p
    ∙ rw e
        (answer-order (canonical_path t p) s.auth.docsets t.auth.docsets _ _ same names refl refl)
    ∙ sym (most_specific_docset-answer t p)
