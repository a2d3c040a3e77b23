-- ===== src/Ceremony/Sources.antt =====
-- The comparison of the places that name an extension id.
use mathlib.Core.Path.{subst}
use latch_playground.Common.{
  ◌≤◌, ◌<◌, ◌≡◌, ◌≢◌, refl, sym, ap, true, Option, none, some, List, [], ◌∷◌, length, All, arith,
  filter,
}
use latch_playground.Common.Result.{ok}
use latch_playground.Text.{Text, unique, includes, is_given, to_lower}
use latch_playground.Text.Laws.{Same, unique_single, unique-Same}
use latch_playground.Extension.{or_empty}
use latch_playground.Extension.Ids.{IsExtensionId, to_lower-id}
use latch_playground.Ceremony.{agreed, parts_of}

unique-ne-nil : (s : Text) (ss : List Text) → unique (s ∷ ss) ≢ []
unfolding unique
unique-ne-nil s ss h = cc

agreed_size : (l : List Text) {e : Text} → agreed l ≡ ok (some e) → length l ≤ 1
agreed_size [] h = cc
agreed_size (s ∷ []) h = omega arith
agreed_size (s ∷ t ∷ l) h = cc

agreed_head :
    (s : Text) (ss : List Text) {e : Text} → agreed (unique (s ∷ ss)) ≡ ok (some e) → s ≡ e
agreed_head s ss h =
    let single = unique-Same s ss (unique_single s ss (agreed_size (unique (s ∷ ss)) h)) in
    let k : agreed (s ∷ []) ≡ ok (some _) = rw single at h in cc

-- An extension id is agreed on only if every place that names one names that one.
pub agreed-some :
    (ss : List Text) {e : Text} → agreed (unique ss) ≡ ok (some e) → Same e ss × (ss ≢ [])
agreed-some [] h = unfold unique in cc
agreed-some (s ∷ ss) h =
    let e = agreed_head s ss h in
    let same = unique_single s ss (agreed_size (unique (s ∷ ss)) h) in
    ((e, subst (λ t. Same t ss) e same), λ n. cc)

agreed_nil : (l : List Text) → agreed l ≡ ok none → l ≡ []
agreed_nil [] h = refl
agreed_nil (s ∷ []) h = cc
agreed_nil (s ∷ t ∷ l) h = cc

pub agreed-none : (ss : List Text) → agreed (unique ss) ≡ ok none → ss ≡ []
agreed-none [] h = refl
agreed-none (s ∷ ss) h = absurd (unique-ne-nil s ss (agreed_nil (unique (s ∷ ss)) h))

pub agreed-Same :
    (s e : Text) (ss : List Text) → Same e (s ∷ ss) → agreed (unique (s ∷ ss)) ≡ ok (some e)
agreed-Same s e ss h =
    rw (unique-Same s ss (subst (λ t. Same t ss) (sym h.0) h.1)) (ap (λ t. ok (some t)) h.0)

-- What every place gives is in lower case.
abbrev pub IsLower : Text → Type 0
IsLower s = to_lower s ≡ s

filter_given-All :
    (P : Text → Type 0) (ss : List Text)
    → All (λ s. is_given s ≡ true → P s) ss
    → All P (filter is_given ss)
filter_given-All P [] h = tt
filter_given-All P ([] ∷ ss) h = filter_given-All P ss h.1
filter_given-All P ((c ∷ s) ∷ ss) h = (h.0 refl, filter_given-All P ss h.1)

or_empty-IsLower :
    (o : Option Text) → ((e : Text) → o ≡ some e → IsExtensionId e) → IsLower (or_empty o)
or_empty-IsLower none h = unfold to_lower in refl
or_empty-IsLower (some e) h = to_lower-id e (h e refl)

pub parts_of-IsLower :
    (a : Text) (b c : Option Text)
    → IsLower a
    → ((e : Text) → b ≡ some e → IsExtensionId e)
    → ((e : Text) → c ≡ some e → IsExtensionId e)
    → All IsLower (parts_of a b c)
unfolding parts_of
parts_of-IsLower a b c ha hb hc =
    filter_given-All IsLower (a ∷ or_empty b ∷ or_empty c ∷ [])
      (λ _. ha, (λ _. or_empty-IsLower b hb, (λ _. or_empty-IsLower c hc, tt)))

pub agreed_all :
    (ss : List Text) {e : Text} → Same e ss → ss ≢ [] → agreed (unique ss) ≡ ok (some e)
agreed_all [] h n = absurd (n refl)
agreed_all (s ∷ ss) {e} h n = agreed-Same s e ss h

pub agreed_empty : {ss : List Text} → ss ≡ [] → agreed (unique ss) ≡ ok none
unfolding unique
agreed_empty h = rw h

-- A predicate that every place's id meets holds of the id that is agreed on.
pub All_of_same :
    (P : Text → Type 0) (ss : List Text) {e : Text} → Same e ss → ss ≢ [] → All P ss → P e
All_of_same P [] s n l = absurd (n refl)
All_of_same P (t ∷ ss) s n l = subst P s.0 l.0

pub length_of_includes : (l : List Text) (s : Text) → includes l s ≡ true → 0 < length l
unfolding includes
length_of_includes [] s h = cc
length_of_includes (t ∷ l) s h = omega arith

given_id :
    (o : Option Text)
    → ((e : Text) → o ≡ some e → IsExtensionId e)
    → is_given (or_empty o) ≡ true
    → IsExtensionId (or_empty o)
given_id none h g = cc
given_id (some e) h g = h e refl

-- Extension ids from each of three places that name one.
pub parts_of-IsExtensionId :
    (a b c : Option Text)
    → ((e : Text) → a ≡ some e → IsExtensionId e)
    → ((e : Text) → b ≡ some e → IsExtensionId e)
    → ((e : Text) → c ≡ some e → IsExtensionId e)
    → All IsExtensionId (parts_of (or_empty a) b c)
unfolding parts_of
parts_of-IsExtensionId a b c ha hb hc =
    filter_given-All IsExtensionId (or_empty a ∷ or_empty b ∷ or_empty c ∷ [])
      (given_id a ha, (given_id b hb, (given_id c hc, tt)))
