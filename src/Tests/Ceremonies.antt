-- ===== src/Tests/Ceremonies.antt =====
-- Ceremonies at concrete requests.
use latch_playground.Common.{◌≡◌, refl, ◌⊎◌, ◌↔◌, some, [], ◌∷◌}
use latch_playground.Common.Result.{ok, ◌>>=◌}
use latch_playground.Text.{
  Text, lit, text_eq, drop_start, drop_end, is_space, trim, lower_unit, to_lower, starts_with,
  split, includes, unique,
}
use latch_playground.Extension.{is_extension_id, id_of_url, id_of_headers}
use latch_playground.Ceremony.{
  absent, Context, Expected, rp_id_of_request, origin_of_request, begin_sources, ceremony_context,
  parts_of, push_ids, expected_rp_ids, finish_for_site, finish_sources, finish_verification,
}
use latch_playground.Ceremony.Begin.{IsFor, ceremony_context_iff}
use latch_playground.Ceremony.Finish.{IsForExtension, finish_verification-guard}
use latch_playground.Tests.World.{bare_environment, bare_headers, site, no_url}

abbrev pub site_context : Context
site_context = record { rp_id = lit "localhost"; origin = lit "http://localhost" }

abbrev pub site_expected : Expected
site_expected = record { origin = site; rp_ids = lit "localhost" ∷ [] }

ceremony_context_iff_example :
    (ceremony_context no_url bare_environment bare_headers absent ≡ ok site_context) ↔ (
      ((begin_sources no_url bare_environment bare_headers absent ≡ [])
        × (site_context ≡ record {
          rp_id = rp_id_of_request bare_environment bare_headers;
          origin = origin_of_request bare_environment bare_headers;
        }))
      ⊎ ((e : Text) × IsFor bare_environment
            (begin_sources no_url bare_environment bare_headers absent)
            site_context
            e))
ceremony_context_iff_example =
    ceremony_context_iff no_url bare_environment bare_headers absent site_context

pub site_begins : ceremony_context no_url bare_environment bare_headers absent ≡ ok site_context
unfolding ceremony_context begin_sources parts_of id_of_headers id_of_url unique rp_id_of_request
    origin_of_request split ◌>>=◌
site_begins = refl

pub site_finishes :
    finish_verification no_url bare_environment site
      (lit "localhost")
      (some site)
      absent
      bare_headers
    ≡ ok site_expected
unfolding finish_verification finish_sources parts_of id_of_headers id_of_url unique finish_for_site
    text_eq expected_rp_ids push_ids trim drop_start drop_end is_space to_lower lower_unit
    starts_with includes is_extension_id ◌>>=◌
site_finishes = refl

finish_verification-guard_example :
    (client_origin : Text) × (some site ≡ some client_origin)
    × (((client_origin ≡ site) × (site_expected.origin ≡ site))
        ⊎ ((e : Text) × IsForExtension bare_environment client_origin site_expected e))
finish_verification-guard_example =
    finish_verification-guard no_url bare_environment site (lit "localhost") (some site) absent
      bare_headers site_finishes
