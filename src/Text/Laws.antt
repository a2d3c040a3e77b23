-- ===== src/Text/Laws.antt =====
-- Laws of the string methods.
use mathlib.Core.Path.{subst}
use latch_playground.Common.{
  ℕ, suc, ◌≤◌, ◌≡◌, refl, sym, Bool, false, not, List, [], ◌∷◌, ◌++◌, length, filter, All, arith,
  Bool-cases, inl, inr,
}
use latch_playground.Text.{
  Text, text_eq, text_eq_iff, is_space, drop_start, drop_end, keep_end, trim, lower_unit, to_lower,
  unique,
}

keep_end-append :
    (p : ℕ → Bool) (c : ℕ) (s : Text) (d : ℕ) (t : Text)
    → keep_end p c (s ++ (d ∷ t)) ≡ c ∷ (s ++ (d ∷ t))
keep_end-append p c [] d t = refl
keep_end-append p c (x ∷ s) d t = refl

-- A text keeps its end when its last part keeps it.
pub drop_end-append :
    (p : ℕ → Bool) (s : Text) (d : ℕ) (t : Text)
    → drop_end p (d ∷ t) ≡ d ∷ t
    → drop_end p (s ++ (d ∷ t)) ≡ s ++ (d ∷ t)
unfolding drop_end
drop_end-append p [] d t h = h
drop_end-append p (c ∷ s) d t h = rw (drop_end-append p s d t h) (keep_end-append p c s d t)

keep_end-no : (p : ℕ → Bool) (c : ℕ) (s : Text) → p c ≡ false → keep_end p c s ≡ c ∷ s
keep_end-no p c [] h = rw h
keep_end-no p c (d ∷ s) h = refl

pub drop_end-All : (p : ℕ → Bool) (s : Text) → All (λ c. p c ≡ false) s → drop_end p s ≡ s
unfolding drop_end
drop_end-All p [] h = refl
drop_end-All p (c ∷ s) h = rw (drop_end-All p s h.1) (keep_end-no p c s h.0)

pub drop_start-no : (p : ℕ → Bool) (c : ℕ) (s : Text) → p c ≡ false → drop_start p (c ∷ s) ≡ c ∷ s
unfolding drop_start
drop_start-no p c s h = rw h

pub trim-All : (s : Text) → All (λ c. is_space c ≡ false) s → trim s ≡ s
unfolding trim
trim-All [] h = unfold drop_start drop_end in refl
trim-All (c ∷ s) h = rw (drop_start-no is_space c s h.0) (drop_end-All is_space (c ∷ s) h)

pub to_lower-All : (s : Text) → All (λ c. lower_unit c ≡ c) s → to_lower s ≡ s
unfolding to_lower
to_lower-All [] h = refl
to_lower-All (c ∷ s) h = rw (h.0, to_lower-All s h.1)

abbrev pub Same : Text → List Text → Type 0
Same s ss = All (λ t. t ≡ s) ss

abbrev others : Text → List Text → List Text
others s ss = filter (λ t. not (text_eq s t)) ss

others-All : (P : Text → Type 0) (s : Text) (ss : List Text) → P s → All P (others s ss) → All P ss
others-All P s [] q h = tt
others-All P s (t ∷ ss) q h = elim (Bool-cases (text_eq s t)) [
  | inl e ↦ (
    subst P ((text_eq_iff s t).0 e) q,
    others-All P s ss q (let k : All P (others s ss) = rw e at h in k),
  )
  | inr e ↦ let k : P t × All P (others s ss) = rw e at h in (k.0, others-All P s ss q k.1)
]

All-others : (P : Text → Type 0) (s : Text) (ss : List Text) → All P ss → All P (others s ss)
All-others P s [] h = tt
All-others P s (t ∷ ss) h = elim (Bool-cases (text_eq s t)) [
  | inl e ↦ rw e (All-others P s ss h.1)
  | inr e ↦ rw e (h.0, All-others P s ss h.1)
]

-- The distinct entries of a list are the entries of the list.
unique-All : (P : Text → Type 0) (ss : List Text) → All P (unique ss) → All P ss
unfolding unique
unique-All P [] h = tt
unique-All P (s ∷ ss) h = (h.0, unique-All P ss (others-All P s (unique ss) h.0 h.1))

All-unique : (P : Text → Type 0) (ss : List Text) → All P ss → All P (unique ss)
unfolding unique
All-unique P [] h = tt
All-unique P (s ∷ ss) h = (h.0, All-others P s (unique ss) (All-unique P ss h.1))

others_none : (s : Text) (ss : List Text) → length (others s ss) ≤ 0 → Same s ss
others_none s [] h = tt
others_none s (t ∷ ss) h = elim (Bool-cases (text_eq s t)) [
  | inl e ↦ (
    sym ((text_eq_iff s t).0 e),
    others_none s ss (let k : length (others s ss) ≤ 0 = rw e at h in k),
  )
  | inr e ↦ let k : suc (length (others s ss)) ≤ 0 = rw e at h in absurd (omega arith)
]

others-Same : (s : Text) (ss : List Text) → Same s ss → others s ss ≡ []
others-Same s [] h = refl
others-Same s (t ∷ ss) h = rw ((text_eq_iff s t).1 (sym h.0)) (others-Same s ss h.1)

-- With at most one distinct entry, all entries are the first.
pub unique_single : (s : Text) (ss : List Text) → length (unique (s ∷ ss)) ≤ 1 → Same s ss
unfolding unique
unique_single s ss h = unique-All _ ss (others_none s (unique ss) (omega arith))

pub unique-Same : (s : Text) (ss : List Text) → Same s ss → unique (s ∷ ss) ≡ s ∷ []
unfolding unique
unique-Same s ss h = rw (others-Same s (unique ss) (All-unique _ ss h))

lower_unit_idem : (c : ℕ) → lower_unit (lower_unit c) ≡ lower_unit c
unfolding lower_unit
lower_unit_idem c = ground arith

pub to_lower_idem : (s : Text) → to_lower (to_lower s) ≡ to_lower s
unfolding to_lower
to_lower_idem [] = refl
to_lower_idem (c ∷ s) = cc (lower_unit_idem c, to_lower_idem s)
