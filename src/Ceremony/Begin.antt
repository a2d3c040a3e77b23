-- ===== src/Ceremony/Begin.antt =====
-- What `resolveWebauthnCeremonyContext` accepts.

use latch_playground.Common.{
  ◌≡◌, ◌≢◌, ◌↔◌, ◌⊎◌, inl, inr, refl, true, Option, none, some, List, [], ◌++◌, All, arith, lt→ltb,
  Option-cases, ◌∙◌,
}
use latch_playground.Common.Result.{ok, ◌>>=◌, >>=-eq-ok}
use latch_playground.Text.{Text, includes, to_lower, trim, unique}
use latch_playground.Text.Laws.{Same, to_lower_idem}
use latch_playground.Extension.{Environment, Headers, scheme, or_else, id_of_url, id_of_headers}
use latch_playground.Extension.Ids.{
  IsExtensionId, id_of_url-IsExtensionId, id_of_headers-IsExtensionId, to_lower-id,
}
use latch_playground.Ceremony.{
  JsonMember, absent, text, other, Context, allowlist, rp_id_of_request, origin_of_request,
  begin_sources, extension_context, ceremony_context, body_id, agreed, context_for,
}
use latch_playground.Ceremony.Sources.{
  agreed-some, agreed-none, agreed_all, agreed_empty, All_of_same, length_of_includes, IsLower,
  parts_of-IsLower,
}

body_id-IsLower : (id : JsonMember) → IsLower (body_id id)
body_id-IsLower absent = unfold to_lower in refl
body_id-IsLower (text s) = to_lower_idem (trim s)
body_id-IsLower other = unfold to_lower in refl

-- The extension that a context was made for: allowed, and named by every place that names one.
pub record IsFor (env : Environment) (sources : List Text) (c : Context) (e : Text) : Type 0 where
  pub id : IsExtensionId e
  pub allowed : includes (allowlist env) e ≡ true
  pub named : sources ≢ []
  pub same : Same e sources
  pub context : c ≡ record { rp_id = e; origin = scheme ++ e }

module _ (parse_url : Text → Option (Text × Text)) (env : Environment) where
  extension_context_lem :
      (e : Text) {c : Context}
      → IsLower e
      → extension_context parse_url env e ≡ ok c
      → IsExtensionId e
        × (includes (allowlist env) e ≡ true)
        × (c ≡ record { rp_id = e; origin = scheme ++ e })
  unfolding extension_context
  extension_context_lem e l h = let k = rw l at h in (ground arith, ground arith, ground arith)

  url_ids :
      (req : Headers) (e : Text)
      → or_else (id_of_url parse_url req.origin) (id_of_url parse_url req.referer) ≡ some e
      → IsExtensionId e
  url_ids req e h = elim (Option-cases (id_of_url parse_url req.origin)) [
    | inl n ↦
        id_of_url-IsExtensionId parse_url req.referer
          (let k : or_else none (id_of_url parse_url req.referer) ≡ some e = rw n at h in k)
    | inr (a, s) ↦
        id_of_url-IsExtensionId parse_url req.origin (let k : some a ≡ some e = rw s at h in s ∙ k)
  ]

  begin_sources-IsLower :
      (req : Headers) (id : JsonMember) → All IsLower (begin_sources parse_url env req id)
  unfolding begin_sources
  begin_sources-IsLower req id =
      parts_of-IsLower (body_id id) (id_of_headers req) _ (body_id-IsLower id)
        (λ e h. id_of_headers-IsExtensionId req h) (url_ids req)

  abbrev Guarded : Headers → JsonMember → Context → Type 0
  Guarded req id c =
      ((begin_sources parse_url env req id ≡ [])
        × (c ≡ record { rp_id = rp_id_of_request env req; origin = origin_of_request env req }))
      ⊎ ((e : Text) × IsFor env (begin_sources parse_url env req id) c e)

  guarded :
      (req : Headers) (id : JsonMember) {c : Context} (ext : Option Text)
      → agreed (unique (begin_sources parse_url env req id)) ≡ ok ext
      → context_for parse_url env req ext ≡ ok c
      → Guarded req id c
  guarded req id none a h = inl (agreed-none _ a, cc)
  guarded req id (some e) a h =
      let same = agreed-some (begin_sources parse_url env req id) a in
      let lower =
        All_of_same IsLower (begin_sources parse_url env req id) same.0 same.1
          (begin_sources-IsLower req id) in
      let x = extension_context_lem e lower h in
      inr (e, record { id = x.0; allowed = x.1; named = same.1; same = same.0; context = x.2 })

  accepted :
      (req : Headers) (id : JsonMember) {c : Context}
      → Guarded req id c
      → ceremony_context parse_url env req id ≡ ok c
  unfolding ceremony_context extension_context
  accepted req id (inl (n, e)) = rw (agreed_empty n, ◌>>=◌, e)
  accepted req id (inr (e, g)) =
      let size = length_of_includes (allowlist env) e g.allowed in
      rw (
        agreed_all _ g.same g.named,
        ◌>>=◌,
        to_lower-id e g.id,
        g.id,
        lt→ltb _ _ size,
        g.allowed,
        g.context,
      )

  -- A ceremony context is accepted exactly when it is that of the site and no place of the request
  -- names an extension, or that of one extension: a well-formed id of the allowlist, which every
  -- place of the request that names an extension names.
  pub ceremony_context_iff :
      (req : Headers) (id : JsonMember) (c : Context)
      → (ceremony_context parse_url env req id ≡ ok c) ↔ (
          ((begin_sources parse_url env req id ≡ [])
            × (c ≡ record { rp_id = rp_id_of_request env req; origin = origin_of_request env req }))
          ⊎ ((e : Text) × IsFor env (begin_sources parse_url env req id) c e))
  unfolding ceremony_context
  ceremony_context_iff req id c = (
    λ h.
        let b = >>=-eq-ok (agreed (unique (begin_sources parse_url env req id))) _ h in
        guarded req id b.0 b.1 b.2,
    accepted req id,
  )
