-- ===== src/Server/Governing/Order.antt =====
-- The order in which `mostSpecificDocset` prefers roots: longer first, then by name.
use open_lore.Prelude.{
  ℕ, ◌≤◌, ◌≡◌, refl, sym, ◌∙◌, inl, inr, Bool, true, false, ◌&&◌, ◌||◌, Option, none, some, arith,
  ltb, nat_eq, Bool-cases, Text, text_lt, text_lt_trans, text_lt_irrefl, text_lt_total,
}
use open_lore.Server.Governing.{Best, is_better}

pub beats : ℕ → Text → ℕ → Text → Bool
beats l n k m = ltb k l || (nat_eq l k && text_lt n m)

pub beats_trans :
    (l k j : ℕ) (n m o : Text) → beats l n k m ≡ true → beats k m j o ≡ true → beats l n j o ≡ true
unfolding beats
beats_trans l k j n m o h g = ground (arith, text_lt_trans n m o)

pub beats_irrefl : (l : ℕ) (n : Text) → beats l n l n ≡ false
unfolding beats
beats_irrefl l n = ground (arith, text_lt_irrefl n)

pub beats_total :
    (l k : ℕ) (n m : Text) → beats l n k m ≡ false → beats k m l n ≡ false → (l ≡ k) × (n ≡ m)
unfolding beats
beats_total l k n m h g = (ground arith, text_lt_total n m (ground arith) (ground arith))

-- What is not preferred to `best` is not preferred to `next` either.
abbrev pub Kept : Option Best → Option Best → Type 0
Kept best next = (l : ℕ) (n : Text) → is_better l n best ≡ false → is_better l n next ≡ false

is_better-beats : (l : ℕ) (n : Text) (b : Best) → is_better l n (some b) ≡ beats l n b.len b.name
unfolding is_better beats
is_better-beats l n b = refl

pub is_better-none : (l : ℕ) (n : Text) → is_better l n none ≡ true
unfolding is_better
is_better-none l n = refl

-- A root that is preferred to `best` may take its place.
pub Kept-better :
    (b : Best) (best : Option Best) → is_better b.len b.name best ≡ true → Kept best (some b)
Kept-better b none h l n e = cc (is_better-none l n)
Kept-better b (some old) h l n e = elim (Bool-cases (is_better l n (some b))) [
  | inr no_better ↦ no_better
  | inl better ↦ absurd (
      cc (
        e,
        is_better-beats l n old,
        beats_trans l b.len old.len n b.name old.name (sym (is_better-beats l n b) ∙ better)
            (sym (is_better-beats b.len b.name old) ∙ h),
      ))
]

pub is_better_self : (b : Best) → is_better b.len b.name (some b) ≡ false
is_better_self b = is_better-beats b.len b.name b ∙ beats_irrefl b.len b.name

-- Two roots neither of which is preferred to the other have one length and one name.
pub is_better_total :
    (a b : Best)
    → is_better a.len a.name (some b) ≡ false
    → is_better b.len b.name (some a) ≡ false
    → (a.len ≡ b.len) × (a.name ≡ b.name)
is_better_total a b h k =
    beats_total a.len b.len a.name b.name (sym (is_better-beats a.len a.name b) ∙ h)
      (sym (is_better-beats b.len b.name a) ∙ k)

-- What is not preferred to a root is no longer, and has no lesser name at the same length.
pub is_better_bounds :
    (l : ℕ) (n : Text) (b : Best)
    → is_better l n (some b) ≡ false
    → (l ≤ b.len) × (l ≡ b.len → text_lt n b.name ≡ false)
unfolding is_better
is_better_bounds l n b h = (ground arith, λ e. ground arith)
