-- ===== src/Tests/Flows.antt =====
-- Built transactions that come back signed.
use latch_playground.Common.{
  ℕ, pos, negsuc, ◌+◌, ◌*◌, ◌^◌, ◌<◌, ◌≡◌, ◌⊎◌, ◌↔◌, refl, Bool, true, false, Option, none, some,
  List, [], ◌∷◌, ◌++◌, String, if◌then◌else◌, length, replicate, map, All, get_elem?, zero, suc,
  arith, inl, inr, drop,
}
use latch_playground.Common.Result.{ok}
use latch_playground.Text.{Text, lit, text_eq, starts_with}
use latch_playground.Bytes.Hex.{IsByte, from_hex, to_hex, hex_digit}
use latch_playground.Effects.{respond, ◌>>=◌, call, rescue}
use latch_playground.Ceremony.{text}
use latch_playground.Chain.{Sdk, AuthEntry, Tx, Passed, no_values, scv_vec}
use latch_playground.Requests.{members}
use latch_playground.Entries.{
  auth_payload, set_signature, hash_payload, set_expiration, classify, normalize_auth_entries,
  address_string,
}
use latch_playground.Entries.Delegated.{nonce_of, delegated_entry, check_auth_entry}
use latch_playground.Entries.Indices.{delegated_indices, account_entry, blob_payloads}
use latch_playground.Rules.{discover_rule, search_rules, find_rule, is_call_of}
use latch_playground.Build.{build, build_entries, bundler_sequence, increment_tx, assembled}
use latch_playground.Build.Answered.{IsBuilt}
use latch_playground.Tests.World.{call_entry, passed_once}
use latch_playground.Tests.Chain.{sdk, config}
use latch_playground.Tests.Built.{build_body, answer, build_log, native_of, rule_services}
use latch_playground.Flow.{base_of, phantom_body}
use latch_playground.Flow.Phantom.{finish, submit_phantom-IsBuilt}
use latch_playground.Submit.Phantom.{submit_phantom_post, is_lower_hex}
use latch_playground.Submit.Phantom.Matched.{IsMatched, submit_phantom-IsMatched}
use latch_playground.Submit.Delegated.{with_entries}

abbrev own : AuthEntry
own = set_expiration 100 call_entry

abbrev built_tx : Tx
built_tx = increment_tx config (lit "G") 4 (lit "C")

abbrev signer_row : AuthEntry
signer_row =
    check_auth_entry (lit "C") (lit "G") (scv_vec no_values) (nonce_of (replicate 32 200)) 100
      (replicate 32 0)

abbrev rows : List AuthEntry
rows = own ∷ signer_row ∷ []

abbrev fresh : Passed
fresh = record passed_once { return_value = some (native_of built_tx.operation.func) }

-- An SDK that reads the texts of the answer back.
abbrev reading_sdk : Sdk
reading_sdk = record sdk {
  parse_auth_entry = λ xdr. ok own;
  parse_transaction = λ xdr passphrase. ok (base_of (assembled sdk built_tx fresh rows));
}

unfoldable built :
    IsBuilt reading_sdk config rule_services build_body [] answer build_log built_tx fresh own
      (replicate 32 0)
unfolding normalize_auth_entries account_entry delegated_indices blob_payloads classify
    address_string hash_payload text_eq starts_with to_hex hex_digit build build_entries
    bundler_sequence discover_rule search_rules find_rule is_call_of rescue delegated_entry call
    ◌>>=◌ latch_playground.Common.Result.◌>>=◌
built = record {
  body = record { smart_account_address = text (lit "C"); signer_g = text (lit "G") };
  account = lit "C";
  raw_entries = call_entry ∷ [];
  rows = rows;
  secret = lit "S";
  source = lit "G";
  rule = some 1;
  sequence = 4;
  searched = drop 3 build_log;
  before = drop 2 build_log;
  bundler = (refl, refl);
  discovered = refl;
  matched = (refl, refl);
  numbered = record { earlier = drop 3 build_log; fetched = refl; last = refl; funded = inl refl };
  simulates = refl;
  posted_body = refl;
  given_account = refl;
  calls_counter = refl;
  next = (refl, refl);
  read = refl;
  valid_until = refl;
  first = (refl, refl, λ j f below at_j. absurd (omega arith));
  hashed = refl;
  digest = refl;
  entry = refl;
  row = inr (lit "G", replicate 32 200, refl, refl, refl, refl, refl, refl);
  blobs = refl;
  transaction = refl;
}

abbrev signature : Text
signature = replicate 128 b'a'

abbrev key : Text
key = replicate 64 b'b'

zero_bytes : (n : ℕ) → All IsByte (replicate n 0)
zero_bytes zero = tt
zero_bytes (suc n) = (omega arith, zero_bytes n)

hashes :
    (bytes : List ℕ) → (length (reading_sdk.hash bytes) ≡ 32) × All IsByte (reading_sdk.hash bytes)
hashes bytes = (refl, zero_bytes 32)

submit_phantom-IsBuilt_example :
    (signed : AuthEntry) × (set_signature own
        (auth_payload (lit "V") (from_hex key) (from_hex signature) (0 ∷ []))
      ≡ ok signed)
    × (submit_phantom_post reading_sdk config rule_services
          (members (phantom_body answer signature key))
          []
        ≡ respond (
            finish reading_sdk config rule_services
              (with_entries
                (base_of (assembled reading_sdk built_tx fresh rows))
                (some (lit "r"))
                (signed ∷ []))
              (lit "S")
              []))
unfolding built assembled is_lower_hex
submit_phantom-IsBuilt_example =
    submit_phantom-IsBuilt reading_sdk config rule_services built (lit "V") (lit "S") signature key
      [] refl refl refl hashes refl refl refl refl refl refl

submit_phantom-IsMatched_example :
    ((submit_phantom_post reading_sdk config rule_services
        (members (phantom_body answer signature key))
        []).1
      ≡ [])
    ⊎ IsMatched reading_sdk config (members (phantom_body answer signature key))
submit_phantom-IsMatched_example =
    submit_phantom-IsMatched reading_sdk config rule_services
      (members (phantom_body answer signature key)) []
