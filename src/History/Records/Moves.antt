-- ===== src/History/Records/Moves.antt =====
-- pkg/openlore/writelog.go: `recordIndex`, which finds the record of a leaf.
use open_lore.Prelude.{
  ℕ, zero, suc, ◌+◌, ◌≡◌, refl, sym, ap, ◌∙◌, ◌↔◌, inl, inr, Bool, true, false, ◌&&◌, some, List,
  [], ◌∷◌, ◌++◌, arith, ◌==◌, Bool-cases, length, keep,
}
use open_lore.Path.{clean_path}
use open_lore.Changeset.{Change, pos, leaf_at}
use open_lore.History.{HistoryRecord}
use open_lore.History.Records.{
  action_string, same_leaf, ordinal, is_record_of, find_record, record_index,
}

-- The leaf has the target and the action of another.
abbrev pub is_like : Change → Change → Bool
is_like leaf c =
    c.target == leaf.target && action_string c.action_name == action_string leaf.action_name

-- The record has the file and the action of a leaf.
abbrev pub has_key : Change → HistoryRecord → Bool
has_key leaf r =
    r.file_key == clean_path leaf.target && r.action_text == action_string leaf.action_name

-- The record at index `j` has the file and the action of the leaf, and so have `n` records before it.
abbrev pub IsNth : Change → List HistoryRecord → ℕ → ℕ → Type 0
IsNth leaf records n j =
    (before : List HistoryRecord) × (r : HistoryRecord) × (others : List HistoryRecord) × (records
      ≡ before ++ r ∷ others)
    × (length before ≡ j)
    × (has_key leaf r ≡ true)
    × (length (keep (has_key leaf) before) ≡ n)

find_record_sound :
    (leaf : Change) (n i : ℕ) (records : List HistoryRecord) (j : ℕ)
    → find_record leaf n i records ≡ some j
    → (m : ℕ) × (j ≡ i + m) × IsNth leaf records n m
unfolding find_record is_record_of
find_record_sound leaf n i [] j h = cc
find_record_sound leaf n i (r ∷ records) j h = elim (Bool-cases (has_key leaf r)) [
  | inr e ↦
      let (m, q, nth) = find_record_sound leaf n (suc i) records j (rw (e, find_record) at h) in
      let (before, x, others, s, l, k, c) = nth in
      (suc m, omega (arith, q), (r ∷ before, x, others, ap (λ y. r ∷ y) s, ap suc l, k, rw e c))
  | inl e ↦
      at_key n e (rw (e, find_record) at h) (λ n'. find_record_sound leaf n' (suc i) records j)
]
  where
    at_key :
        (n : ℕ)
        → has_key leaf r ≡ true
        → elim n [ zero ↦ some i | suc n' ↦ find_record leaf n' (suc i) records ] ≡ some j
        → ((n' : ℕ)
            → find_record leaf n' (suc i) records ≡ some j
            → (m : ℕ) × (j ≡ suc i + m) × IsNth leaf records n' m)
        → (m : ℕ) × (j ≡ i + m) × IsNth leaf (r ∷ records) n m
    at_key zero e h ih =
        let same : i ≡ j = cc in (0, omega (arith, same), ([], r, records, refl, refl, e, refl))
    at_key (suc n') e h ih =
        let (m, q, nth) = ih n' h in
        let (before, x, others, s, l, k, c) = nth in
        (
          suc m,
          omega (arith, q),
          (r ∷ before, x, others, ap (λ y. r ∷ y) s, ap suc l, k, rw e (ap suc c)),
        )

find_record-like :
    (leaf : Change) (n i : ℕ) (r : HistoryRecord) (records : List HistoryRecord)
    → has_key leaf r ≡ true
    → find_record leaf (suc n) i (r ∷ records) ≡ find_record leaf n (suc i) records
unfolding find_record is_record_of
find_record-like leaf n i r records e = rw (e, find_record) refl

find_record-other :
    (leaf : Change) (n i : ℕ) (r : HistoryRecord) (records : List HistoryRecord)
    → has_key leaf r ≡ false
    → find_record leaf n i (r ∷ records) ≡ find_record leaf n (suc i) records
unfolding find_record is_record_of
find_record-other leaf n i r records e = rw (e, find_record) refl

find_record_complete :
    (leaf : Change) (i : ℕ) (before : List HistoryRecord) (r : HistoryRecord)
    (others : List HistoryRecord)
    → has_key leaf r ≡ true
    → find_record leaf (length (keep (has_key leaf) before)) i (before ++ r ∷ others)
      ≡ some (i + length before)
unfolding find_record is_record_of
find_record_complete leaf i [] r others k = rw (k, find_record) (ap some (omega arith))
find_record_complete leaf i (x ∷ before) r others k =
    let ih = find_record_complete leaf (suc i) before r others k in
    elim (Bool-cases (has_key leaf x)) [
      | inl e ↦
          let kept : length (keep (has_key leaf) (x ∷ before))
              ≡ suc (length (keep (has_key leaf) before)) =
            rw e refl in
          ap (λ n. find_record leaf n i (x ∷ before ++ r ∷ others)) kept
          ∙ find_record-like leaf (length (keep (has_key leaf) before)) i x (before ++ r ∷ others) e
          ∙ ih
          ∙ ap some (omega arith)
      | inr e ↦
          let kept : length (keep (has_key leaf) (x ∷ before))
              ≡ length (keep (has_key leaf) before) =
            rw e refl in
          ap (λ n. find_record leaf n i (x ∷ before ++ r ∷ others)) kept
          ∙ find_record-other leaf (length (keep (has_key leaf) before)) i x (before ++ r ∷ others)
              e
          ∙ ih
          ∙ ap some (omega arith)
    ]

-- The number that `recordIndex` counts up to.
ordinal-keep :
    (earlier : List Change) (leaf : Change) (later : List Change)
    → ordinal leaf (length earlier) (earlier ++ leaf ∷ later) ≡ length (keep (is_like leaf) earlier)
unfolding ordinal same_leaf
ordinal-keep [] leaf later = refl
ordinal-keep (c ∷ earlier) leaf later =
    let ih = ordinal-keep earlier leaf later in
    elim (Bool-cases (is_like leaf c)) [ inl e ↦ rw e (ap suc ih) | inr e ↦ rw e ih ]

leaf_at-append :
    (earlier : List Change) (leaf : Change) (later : List Change)
    → leaf_at (earlier ++ leaf ∷ later) (pos (length earlier)) ≡ some leaf
unfolding leaf_at
leaf_at-append [] leaf later = refl
leaf_at-append (c ∷ earlier) leaf later = leaf_at-append earlier leaf later

record_index-find_record :
    (records : List HistoryRecord) (earlier : List Change) (leaf : Change) (later : List Change)
    → record_index records (earlier ++ leaf ∷ later) (pos (length earlier))
      ≡ find_record leaf (length (keep (is_like leaf) earlier)) 0 records
unfolding record_index
record_index-find_record records earlier leaf later =
    rw (record_index, leaf_at-append earlier leaf later)
      (ap (λ n. find_record leaf n 0 records) (ordinal-keep earlier leaf later))

-- For any records and any batch, the record that the history finds for a leaf is the one with the
-- leaf's file and action before which as many records have them as leaves before the leaf have its
-- target and action; and it finds one where there is one.
pub record_index_lem :
    (records : List HistoryRecord) (earlier : List Change) (leaf : Change) (later : List Change)
    (j : ℕ)
    → (record_index records (earlier ++ leaf ∷ later) (pos (length earlier)) ≡ some j)
      ↔ IsNth leaf records (length (keep (is_like leaf) earlier)) j
record_index_lem records earlier leaf later j = (
  λ h.
      let (m, q, nth) =
        find_record_sound leaf (length (keep (is_like leaf) earlier)) 0 records j
          (sym (record_index-find_record records earlier leaf later) ∙ h) in
      let same : m ≡ j = omega (arith, q) in rw (← same) nth,
  λ nth.
      let (before, r, others, s, l, k, c) = nth in
      record_index-find_record records earlier leaf later
      ∙ rw (← c, s) (find_record_complete leaf 0 before r others k ∙ ap some (omega (arith, l))),
)
