-- ===== src/Tests/Built.antt =====
-- Transactions built at concrete requests, and submitted.
use latch_playground.Common.{
  ℕ, pos, negsuc, ◌+◌, ◌*◌, ◌^◌, ◌<◌, ◌≡◌, ◌⊎◌, ◌↔◌, refl, Bool, true, false, Option, none, some,
  List, [], ◌∷◌, ◌++◌, String, if◌then◌else◌, length, replicate, map, All, get_elem?, zero, suc,
  arith,
}
use latch_playground.Common.Result.{ok}
use latch_playground.Text.{Text, lit, text_eq, starts_with}
use latch_playground.Bytes.Hex.{IsByte, to_hex, hex_digit}
use latch_playground.Effects.{json, done, ◌>>=◌, call, rescue}
use latch_playground.Ceremony.{text}
use latch_playground.Chain.{
  AuthEntry, Tx, HostFunction, call_contract, Passed, passed, Native, number, string, object,
  no_members, member, scv_u32, ScVals, value, no_values,
}
use latch_playground.Server.{Event, Services}
use latch_playground.Requests.{JsonBody, members}
use latch_playground.Entries.{hash_payload, classify, normalize_auth_entries, address_string}
use latch_playground.Entries.Delegated.{nonce_of, to_int32, delegated_entry}
use latch_playground.Entries.Delegated.Nonce.{IsInt32, nonce_of_lem}
use latch_playground.Entries.Indices.{delegated_indices, account_entry, blob_payloads}
use latch_playground.Entries.Indices.First.{has, IsDelegatedAt, delegated_indices_iff}
use latch_playground.Rules.{discover_rule, search_rules, find_rule, is_call_of}
use latch_playground.Rules.Discovered.{IsDiscovered, discover_rule-IsDiscovered}
use latch_playground.Build.{BuildBody, Built, build, build_post, build_entries, bundler_sequence}
use latch_playground.Build.Answered.{IsBuilt, build-IsBuilt}
use latch_playground.Tests.World.{services, call_entry, passed_once}
use latch_playground.Tests.Chain.{sdk, config}

-- A network that knows two rules, of which the second is for the counter.
abbrev pub rule_for : Text → Native
rule_for contract = object (
    member (lit "context_type") (object (member (lit "CallContract") (string contract) no_members))
      no_members)

abbrev pub rule_of : ScVals → Native
rule_of (value (scv_u32 (suc zero)) no_values) = rule_for (lit "N")
rule_of args = rule_for (lit "M")

abbrev pub native_of : HostFunction → Native
native_of (call_contract contract function args) =
    if text_eq function (lit "get_context_rules_count") then number 2 else rule_of args
native_of f = number 0

abbrev pub rule_services : Services
rule_services = record services {
  simulate_transaction = λ log tx.
      ok (passed (record passed_once { return_value = some (native_of tx.operation.func) }));
}

discover_rule-IsDiscovered_example :
    (found : Option ℕ) × (log : List Event) × (discover_rule rule_services {R = Unit} sdk
        (lit "N")
        (lit "C")
        []
      ≡ (done found, log))
    × ((id : ℕ)
        → found ≡ some id
        → IsDiscovered sdk rule_services Unit (lit "N") (lit "C") [] id log)
discover_rule-IsDiscovered_example =
    discover_rule-IsDiscovered sdk rule_services Unit (lit "N") (lit "C") []

abbrev pub build_body : JsonBody BuildBody
build_body = members (record { smart_account_address = text (lit "C"); signer_g = text (lit "G") })

abbrev pub zeros : Text
zeros = replicate 64 b'0'

abbrev pub answer : Built
answer = record {
  tx_xdr = lit "t";
  auth_entry_xdr = lit "e";
  auth_entries_xdr = lit "e" ∷ lit "e" ∷ [];
  smart_account_auth_entry_index = 0;
  delegated_native_auth_entry_indices = 1 ∷ [];
  delegated_native_sign_blob_payloads_base64 = replicate 32 0 ∷ [];
  delegated_g_auth_entry_synthesized = true;
  context_rule_id = 1;
  context_rule_matched = true;
  simulation_result = record {
    transaction_data = lit "r";
    min_resource_fee = lit "7";
    latest_ledger = 40;
  };
  auth_digest_hex = zeros;
  signature_payload_hex = zeros;
  valid_until_ledger = 100;
}

abbrev pub build_log : List Event
build_log = (build_post sdk config rule_services build_body []).1

builds : build_post sdk config rule_services build_body [] ≡ (json answer, build_log)
unfolding build build_entries bundler_sequence discover_rule search_rules find_rule is_call_of
    rescue text_eq starts_with normalize_auth_entries account_entry delegated_indices blob_payloads
    classify address_string hash_payload delegated_entry to_hex hex_digit ◌>>=◌ call
    latch_playground.Common.Result.◌>>=◌
builds = refl

build-IsBuilt_example :
    (tx : Tx) × (p : Passed) × (own : AuthEntry) × (payload : List ℕ) × IsBuilt sdk config
      rule_services build_body [] answer build_log tx p own payload
build-IsBuilt_example = build-IsBuilt sdk config rule_services build_body [] builds

delegated_indices_iff_example :
    (has 0 (delegated_indices (lit "D") (some (lit "C")) 0 (call_entry ∷ [])) ≡ true)
    ↔ IsDelegatedAt (lit "D") (some (lit "C")) 0 (call_entry ∷ []) 0
delegated_indices_iff_example =
    delegated_indices_iff (lit "D") (some (lit "C")) 0 (call_entry ∷ []) 0

nonce_of_example :
    (nonce_of (1 ∷ 2 ∷ 200 ∷ 4 ∷ 5 ∷ 6 ∷ []) ≡ to_int32 (200 * 2 ^ 24 + 4 * 2 ^ 16 + 5 * 2 ^ 8 + 6))
    × IsInt32 (nonce_of (1 ∷ 2 ∷ 200 ∷ 4 ∷ 5 ∷ 6 ∷ []))
nonce_of_example = nonce_of_lem 1 2 200 4 5 6 [] bytes_small
  where
    bytes_small : All IsByte (1 ∷ 2 ∷ 200 ∷ 4 ∷ 5 ∷ 6 ∷ [])
    bytes_small =
        (omega arith, (omega arith, (omega arith, (omega arith, (omega arith, (omega arith, tt))))))
