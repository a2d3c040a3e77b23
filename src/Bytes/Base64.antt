-- ===== src/Bytes/Base64.antt =====
-- base64url: `b64uEncode` and `b64uDecode` of lib/webauthn.ts, `toBase64Url` and `fromBase64Url` of
-- lib/webauthn-server.ts. Base64 itself is `Buffer`'s: the encoder pads with `=`, and the decoder
-- reads both alphabets, skips every other character and ignores a lone last sextet.
use latch_playground.Common.{
  ℕ, ◌+◌, ◌-◌, ◌*◌, ◌/◌, ◌%◌, ◌<◌, ◌≡◌, refl, not, ◌&&◌, ◌||◌, Option, none, some, List, [], ◌∷◌,
  arith, ltb, leb, ◌==◌, if◌then◌else◌, filter, All,
}
use latch_playground.Bytes.Hex.{IsByte}

base64_char : ℕ → ℕ
base64_char v =
    if ltb v 26
    then 65 + v
    else if ltb v 52
    then 71 + v
    else if ltb v 62
    then v - 4
    else if v == 62
    then b'+'
    else b'/'

base64_value? : ℕ → Option ℕ
base64_value? c =
    if leb 65 c && leb c 90
    then some (c - 65)
    else if leb 97 c && leb c 122
    then some (c - 71)
    else if leb 48 c && leb c 57
    then some (c + 4)
    else if c == b'+' || c == b'-'
    then some 62
    else if c == b'/' || c == b'_'
    then some 63
    else none

to_base64 : List ℕ → List ℕ
unfolding base64_char
to_base64 [] = []
to_base64 (a ∷ []) = base64_char (a / 4) ∷ base64_char (a % 4 * 16) ∷ b'=' ∷ b'=' ∷ []
to_base64 (a ∷ b ∷ []) =
    base64_char (a / 4) ∷ base64_char (a % 4 * 16 + b / 16) ∷ base64_char (b % 16 * 4) ∷ b'=' ∷ []
to_base64 (a ∷ b ∷ c ∷ rest) =
    base64_char (a / 4)
    ∷ base64_char (a % 4 * 16 + b / 16)
    ∷ base64_char (b % 16 * 4 + c / 64)
    ∷ base64_char (c % 64)
    ∷ to_base64 rest

-- The sextets of a text, in order, up to a `=`.
abbrev keep : Option ℕ → List ℕ → List ℕ
keep none rest = rest
keep (some v) rest = v ∷ rest

sextets : List ℕ → List ℕ
unfolding base64_value?
sextets [] = []
sextets (c ∷ s) = let rest = sextets s in if c == b'=' then [] else keep (base64_value? c) rest

join : List ℕ → List ℕ
join (s ∷ t ∷ u ∷ v ∷ rest) =
    (s * 4 + t / 16) ∷ (t % 16 * 16 + u / 4) ∷ (u % 4 * 64 + v) ∷ join rest
join (s ∷ t ∷ u ∷ []) = (s * 4 + t / 16) ∷ (t % 16 * 16 + u / 4) ∷ []
join (s ∷ t ∷ []) = (s * 4 + t / 16) ∷ []
join (s ∷ []) = []
join [] = []

from_base64 : List ℕ → List ℕ
unfolding sextets join
from_base64 s = join (sextets s)

-- `.replace(/x/g, "y")` for one character.
abbrev pub replace_all : ℕ → ℕ → List ℕ → List ℕ
replace_all x y [] = []
replace_all x y (c ∷ s) = (if c == x then y else c) ∷ replace_all x y s

-- `.replace(/x/g, "")`.
abbrev pub remove_all : ℕ → List ℕ → List ℕ
remove_all x = filter (λ c. not (c == x))

unfoldable pub to_base64_url : List ℕ → List ℕ
unfolding to_base64
to_base64_url bs = remove_all b'=' (replace_all b'/' b'_' (replace_all b'+' b'-' (to_base64 bs)))

unfoldable pub from_base64_url : List ℕ → List ℕ
unfolding from_base64
from_base64_url s = from_base64 (replace_all b'_' b'/' (replace_all b'-' b'+' s))

abbrev url : List ℕ → List ℕ
url s = remove_all b'=' (replace_all b'/' b'_' (replace_all b'+' b'-' s))

abbrev unurl : List ℕ → List ℕ
unurl s = replace_all b'_' b'/' (replace_all b'-' b'+' s)

-- One character on its way out and back in.
sextets-char :
    (v : ℕ) (s : List ℕ)
    → v < 64
    → sextets (unurl (url (base64_char v ∷ s))) ≡ v ∷ sextets (unurl (url s))
unfolding sextets base64_char
sextets-char v s h = ground arith

join-sextets : (bs : List ℕ) → All IsByte bs → join (sextets (unurl (url (to_base64 bs)))) ≡ bs
unfolding to_base64 join
join-sextets [] h = unfold sextets in refl
join-sextets (a ∷ []) h =
    rw
      (
        sextets-char (a / 4) (base64_char (a % 4 * 16) ∷ []) (omega arith),
        sextets-char (a % 4 * 16) [] (omega arith),
      )
      (unfold sextets in ground arith)
join-sextets (a ∷ b ∷ []) h =
    rw
      (
        sextets-char (a / 4) (base64_char (a % 4 * 16 + b / 16) ∷ base64_char (b % 16 * 4) ∷ [])
            (omega arith),
        sextets-char (a % 4 * 16 + b / 16) (base64_char (b % 16 * 4) ∷ []) (omega arith),
        sextets-char (b % 16 * 4) [] (omega arith),
      )
      (unfold sextets in ground arith)
join-sextets (a ∷ b ∷ c ∷ rest) h =
    let x = a % 4 * 16 + b / 16 in
    let y = b % 16 * 4 + c / 64 in
    let s₂ = base64_char (c % 64) ∷ to_base64 rest in
    rw
      (
        sextets-char (a / 4) (base64_char x ∷ base64_char y ∷ s₂) (omega arith),
        sextets-char x (base64_char y ∷ s₂) (omega arith),
        sextets-char y s₂ (omega arith),
        sextets-char (c % 64) (to_base64 rest) (omega arith),
        join-sextets rest h.1.1.1,
      )
      (ground arith)

-- Decoding the base64url text of a byte string gives the byte string back.
pub from_base64_url-to_base64_url :
    (bs : List ℕ) → All IsByte bs → from_base64_url (to_base64_url bs) ≡ bs
unfolding from_base64_url to_base64_url
from_base64_url-to_base64_url bs h = join-sextets bs h
