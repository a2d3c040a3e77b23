-- ===== src/Tests/Delegated.antt =====
-- A transaction that is built for a delegated signer, and comes back signed.
use latch_playground.Common.{
  ◌≡◌, refl, some, List, [], ◌∷◌, replicate, pos, Option, none, if◌then◌else◌,
}
use latch_playground.Common.Result.{ok}
use latch_playground.Text.{Text, lit, text_eq}
use latch_playground.Bytes.Hex.{to_hex, hex_digit}
use latch_playground.Effects.{json, respond, ◌>>=◌, call}
use latch_playground.Ceremony.{text}
use latch_playground.Chain.{
  Sdk, AuthEntry, Tx, Passed, scv_void, passphrase_of, of_address, known, decoded,
}
use latch_playground.Server.{Event}
use latch_playground.Requests.{JsonBody, members}
use latch_playground.Entries.{account_signature, set_signature, hash_payload, address_of}
use latch_playground.Entries.Delegated.{check_auth_entry}
use latch_playground.Submit.Delegated.{with_entries, submit_delegated_post}
use latch_playground.Build.{increment_tx, assembled}
use latch_playground.BuildDelegated.{
  DelegatedBuildBody, DelegatedBuilt, delegated_auth_payload, read_int64, build_check,
  build_delegated, build_delegated_post,
}
use latch_playground.BuildDelegated.Answered.{IsDelegated, build_delegated-IsDelegated}
use latch_playground.Flow.{base_of, delegated_body}
use latch_playground.Flow.Delegated.{finish_delegated, submit_delegated-IsDelegated}
use latch_playground.Tests.World.{services, call_entry, passed_once}
use latch_playground.Tests.Chain.{sdk, config}

-- The entry of the account C with the payload of the signer G, and the entry that G signs.
abbrev check_own : AuthEntry
check_own = record {
  credentials = of_address (record {
    address = known (lit "C");
    nonce = pos 5;
    expiration = 100;
    signature = delegated_auth_payload (lit "G");
  });
  root = call_entry.root;
}

abbrev check_template : AuthEntry
check_template =
    check_auth_entry (lit "C") (lit "G") scv_void (read_int64 (replicate 8 255)) 100
      (replicate 32 0)

abbrev check_tx : Tx
check_tx = increment_tx config (lit "G") 4 (lit "C")

abbrev printed : Option Text → Text
printed none = []
printed (some s) = s

-- An SDK that prints an entry as its address, and reads the texts of the answer back.
abbrev check_sdk : Sdk
check_sdk = record sdk {
  print_auth_entry = λ e. printed (address_of e.credentials);
  parse_auth_entry = λ xdr. if text_eq xdr (lit "G") then ok check_template else ok check_own;
  parse_transaction =
      λ xdr passphrase. ok (base_of (assembled sdk check_tx passed_once (check_own ∷ [])));
}

abbrev check_body : JsonBody DelegatedBuildBody
check_body = members (record { smart_account_address = text (lit "C"); g_address = text (lit "G") })

abbrev pub check_answer : DelegatedBuilt
check_answer = record {
  tx_xdr = lit "t";
  smart_account_auth_entry_xdr = lit "C";
  g_address_preimage_xdr = [];
  g_address_entry_template_xdr = lit "G";
  auth_digest_hex = replicate 64 b'0';
  valid_until_ledger = 100;
}

abbrev check_log : List Event
check_log = (build_delegated_post check_sdk config services check_body []).1

check_builds :
    build_delegated_post check_sdk config services check_body [] ≡ (json check_answer, check_log)
unfolding build_delegated build_check hash_payload to_hex hex_digit ◌>>=◌ call
check_builds = refl

build_delegated-IsDelegated_example :
    (tx : Tx) × (p : Passed) × (own : AuthEntry) × (template : AuthEntry) × IsDelegated check_sdk
      config services check_body [] check_answer check_log tx p own template
build_delegated-IsDelegated_example =
    build_delegated-IsDelegated check_sdk config services check_body [] check_builds

unfoldable check_built :
    IsDelegated check_sdk config services check_body [] check_answer check_log check_tx passed_once
      check_own check_template
unfolding build_delegated build_check hash_payload to_hex hex_digit ◌>>=◌ call
check_built = record {
  body = record { smart_account_address = text (lit "C"); g_address = text (lit "G") };
  account = lit "C";
  g_address = lit "G";
  secret = lit "S";
  source = lit "G";
  sequence = 4;
  found = decoded call_entry;
  others = [];
  raw = call_entry;
  bundler = (refl, refl);
  fetched = refl;
  simulates = refl;
  first = refl;
  read = refl;
  payload = replicate 32 0;
  nonce_bytes = replicate 8 255;
  posted_body = refl;
  given_account = refl;
  given_signer = refl;
  calls_counter = refl;
  next = (refl, refl);
  hashed = refl;
  signed = refl;
  checks = refl;
  digest = refl;
  transaction = refl;
  entry = refl;
  template_entry = refl;
  preimage = ([], refl, refl);
  calls = refl;
}

submit_delegated-IsDelegated_example :
    (signed : AuthEntry) × (set_signature check_template
        (account_signature (replicate 32 1) (replicate 64 2))
      ≡ ok signed)
    × (hash_payload check_sdk signed (passphrase_of check_sdk config) ≡ ok (replicate 32 0))
    × (submit_delegated_post check_sdk config services
          (members (delegated_body check_answer (lit "s") (lit "G")))
          []
        ≡ respond (
            finish_delegated check_sdk config services
              (with_entries
                (base_of (assembled check_sdk check_tx passed_once (check_own ∷ [])))
                (some (lit "r"))
                (check_own ∷ signed ∷ []))
              (lit "S")
              []))
unfolding check_built assembled text_eq
submit_delegated-IsDelegated_example =
    submit_delegated-IsDelegated check_sdk config services check_built (lit "S") (lit "s")
      (replicate 32 1) [] refl refl refl refl refl refl refl refl refl refl refl
