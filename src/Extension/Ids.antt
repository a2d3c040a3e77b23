-- ===== src/Extension/Ids.antt =====
-- What an extension id looks like, and what the string methods make of one.
use latch_playground.Common.{
  ℕ, ◌≤◌, ◌≡◌, Bool, true, false, ◌&&◌, Option, none, some, [], ◌∷◌, ◌++◌, leb, ◌==◌, length, all,
  All, All-append, arith, and_split,
}
use latch_playground.Text.{Text, is_space, trim, lower_unit, to_lower}
use latch_playground.Text.Laws.{trim-All, to_lower-All, drop_end-All, drop_end-append}
use latch_playground.Extension.{
  Headers, is_extension_id, scheme, id_of_url, id_of_headers, normalize_origin, rp_id_candidates,
}

abbrev pub IsExtensionId : Text → Type 0
IsExtensionId s = is_extension_id s ≡ true

is_letter : ℕ → Bool
is_letter c = leb 97 c && leb c 112

letters-All :
    (P : ℕ → Type 0) (s : Text)
    → ((c : ℕ) → 97 ≤ c → c ≤ 112 → P c)
    → all (λ c. leb 97 c && leb c 112) s ≡ true
    → All P s
letters-All P [] f h = tt
letters-All P (c ∷ s) f h =
    let p = and_split (leb 97 c && leb c 112) _ h in
    (f c (ground arith) (ground arith), letters-All P s f p.1)

id-All :
    (P : ℕ → Type 0) (s : Text) → ((c : ℕ) → 97 ≤ c → c ≤ 112 → P c) → IsExtensionId s → All P s
unfolding is_extension_id
id-All P s f h = letters-All P s f (and_split (length s == 32) _ h).1

letter-not-space : (c : ℕ) → 97 ≤ c → c ≤ 112 → is_space c ≡ false
unfolding is_space
letter-not-space c l u = ground arith

letter-lower : (c : ℕ) → 97 ≤ c → c ≤ 112 → lower_unit c ≡ c
unfolding lower_unit
letter-lower c l u = ground arith

pub trim-id : (s : Text) → IsExtensionId s → trim s ≡ s
trim-id s h = trim-All s (id-All _ s letter-not-space h)

pub to_lower-id : (s : Text) → IsExtensionId s → to_lower s ≡ s
to_lower-id s h = to_lower-All s (id-All _ s letter-lower h)

pub rp_id_candidates_lem :
    (e : Text) → IsExtensionId e → rp_id_candidates e ≡ e ∷ (scheme ++ e) ∷ []
unfolding rp_id_candidates
rp_id_candidates_lem e h = rw (trim-id e h, to_lower-id e h, h)

pub id_of_url-IsExtensionId :
    (parse_url : Text → Option (Text × Text)) (raw : Option Text) {e : Text}
    → id_of_url parse_url raw ≡ some e
    → IsExtensionId e
unfolding id_of_url
id_of_url-IsExtensionId parse_url none h = cc
id_of_url-IsExtensionId parse_url (some raw) h = ground arith

pub id_of_headers-IsExtensionId :
    (req : Headers) {e : Text} → id_of_headers req ≡ some e → IsExtensionId e
unfolding id_of_headers
id_of_headers-IsExtensionId req h = ground arith

nil-not-id : IsExtensionId [] → ⊥
unfolding is_extension_id
nil-not-id h = cc

letter-not-slash : (c : ℕ) → 97 ≤ c → c ≤ 112 → (c == b'/') ≡ false
letter-not-slash c l u = ground arith

scheme-space : All (λ c. is_space c ≡ false) scheme
unfolding is_space
scheme-space = ground arith

scheme-lower : All (λ c. lower_unit c ≡ c) scheme
unfolding lower_unit
scheme-lower = ground arith

-- The origin of an extension is in normal form.
pub normalize_origin-scheme :
    (e : Text) → IsExtensionId e → normalize_origin (scheme ++ e) ≡ scheme ++ e
unfolding normalize_origin
normalize_origin-scheme [] h = absurd (nil-not-id h)
normalize_origin-scheme (c ∷ e) h =
    rw
      (
        trim-All (scheme ++ (c ∷ e))
            (All-append _ scheme (c ∷ e) scheme-space (id-All _ (c ∷ e) letter-not-space h)),
        to_lower-All (scheme ++ (c ∷ e))
            (All-append _ scheme (c ∷ e) scheme-lower (id-All _ (c ∷ e) letter-lower h)),
      )
      (drop_end-append _ scheme c e (drop_end-All _ (c ∷ e) (id-All _ (c ∷ e) letter-not-slash h)))
