-- ===== src/Ceremony/Finish.antt =====
-- What `resolveWebauthnFinishVerification` accepts.

use latch_playground.Common.{◌≡◌, ◌⊎◌, inl, inr, true, Option, none, some, [], ◌∷◌, ◌++◌, arith}
use latch_playground.Common.Result.{ok, >>=-eq-ok}
use latch_playground.Text.{Text, text_eq_iff, includes, unique}
use latch_playground.Extension.{
  Environment, Headers, scheme, id_of_url, id_of_headers, normalize_origin,
}
use latch_playground.Extension.Ids.{
  IsExtensionId, id_of_url-IsExtensionId, id_of_headers-IsExtensionId, normalize_origin-scheme,
  rp_id_candidates_lem,
}
use latch_playground.Ceremony.{
  JsonMember, absent, text, other, Expected, allowlist, agreed, finish_body_id, given_origin,
  finish_sources, finish_for, finish_for_site, finish_for_extension, finish_verification,
}
use latch_playground.Ceremony.Sources.{agreed-some, All_of_same, parts_of-IsExtensionId}

-- A verification for the extension `e`: allowed, and the origin that the browser signed is its own.
pub record IsForExtension (env : Environment) (client_origin : Text) (x : Expected) (e : Text)
    : Type 0 where
  pub id : IsExtensionId e
  pub allowed : includes (allowlist env) e ≡ true
  pub signed : normalize_origin client_origin ≡ scheme ++ e
  pub origin : x.origin ≡ scheme ++ e
  pub rp_ids : x.rp_ids ≡ e ∷ (scheme ++ e) ∷ []

body-IsExtensionId :
    (id : JsonMember) {from_body : Option Text}
    → finish_body_id id ≡ ok from_body
    → (e : Text) → from_body ≡ some e
    → IsExtensionId e
body-IsExtensionId absent h e k = cc
body-IsExtensionId (text s) h e k = ground arith
body-IsExtensionId other h e k = cc

given_origin_lem : (o : Option Text) {s : Text} → given_origin o ≡ ok s → o ≡ some s
given_origin_lem none h = cc
given_origin_lem (some t) h = ground arith

module _ (parse_url : Text → Option (Text × Text)) (env : Environment) where
  for_extension :
      (e client_origin : Text) {x : Expected}
      → IsExtensionId e
      → finish_for_extension parse_url env e client_origin ≡ ok x
      → IsForExtension env client_origin x e
  unfolding finish_for_extension
  for_extension e client_origin i h =
      let n = normalize_origin-scheme e i in
      let t = text_eq_iff (normalize_origin client_origin) (normalize_origin (scheme ++ e)) in
      let c = rp_id_candidates_lem e i in
      record {
        id = i;
        allowed = ground arith;
        signed = ground arith;
        origin = ground arith;
        rp_ids = ground arith;
      }

  for_site :
      (challenge_origin challenge_rp_id client_origin : Text) {x : Expected}
      → finish_for_site parse_url env challenge_origin challenge_rp_id client_origin ≡ ok x
      → (client_origin ≡ challenge_origin) × (x.origin ≡ challenge_origin)
  unfolding finish_for_site
  for_site challenge_origin challenge_rp_id client_origin h =
      ground (arith, text_eq_iff client_origin challenge_origin)

  finished :
      (challenge_origin challenge_rp_id client_origin : Text) (from_body : Option Text)
      (req : Headers) {x : Expected} (ext : Option Text)
      → ((e : Text) → from_body ≡ some e → IsExtensionId e)
      → agreed (unique (finish_sources parse_url env from_body req client_origin)) ≡ ok ext
      → finish_for parse_url env challenge_origin challenge_rp_id client_origin ext ≡ ok x
      → ((client_origin ≡ challenge_origin) × (x.origin ≡ challenge_origin))
        ⊎ ((e : Text) × IsForExtension env client_origin x e)
  unfolding finish_sources
  finished challenge_origin challenge_rp_id client_origin from_body req none b a h =
      inl (for_site challenge_origin challenge_rp_id client_origin h)
  finished challenge_origin challenge_rp_id client_origin from_body req (some e) b a h =
      let same = agreed-some (finish_sources parse_url env from_body req client_origin) a in
      let ids =
        parts_of-IsExtensionId from_body (id_of_headers req)
          (id_of_url parse_url (some client_origin)) b (λ e k. id_of_headers-IsExtensionId req k)
          (λ e k. id_of_url-IsExtensionId parse_url (some client_origin) k) in
      inr (e, for_extension e client_origin (All_of_same IsExtensionId _ same.0 same.1 ids) h)

  -- A finish request is verified against the challenge's own origin, which the browser then signed
  -- character for character, or against the origin of one extension of the allowlist, which the
  -- browser then signed up to blanks, case and trailing slashes.
  pub finish_verification-guard :
      (challenge_origin challenge_rp_id : Text) (client_data_origin : Option Text) (id : JsonMember)
      (req : Headers) {x : Expected}
      → finish_verification parse_url env challenge_origin challenge_rp_id client_data_origin id req
        ≡ ok x
      → (client_origin : Text) × (client_data_origin ≡ some client_origin)
        × (((client_origin ≡ challenge_origin) × (x.origin ≡ challenge_origin))
            ⊎ ((e : Text) × IsForExtension env client_origin x e))
  unfolding finish_verification
  finish_verification-guard challenge_origin challenge_rp_id client_data_origin id req h =
      let o = >>=-eq-ok (given_origin client_data_origin) _ h in
      let b = >>=-eq-ok (finish_body_id id) _ o.2 in
      let a = >>=-eq-ok (agreed (unique (finish_sources parse_url env b.0 req o.0))) _ b.2 in
      (
        o.0,
        given_origin_lem client_data_origin o.1,
        finished challenge_origin challenge_rp_id o.0 b.0 req a.0 (body-IsExtensionId id b.1) a.1
            a.2,
      )
