-- ===== src/Tests/Chain.antt =====
-- Deployments and submissions at concrete requests.
use latch_playground.Common.{
  ℕ, ◌+◌, ◌<◌, ◌≤◌, ◌≡◌, refl, ◌⊎◌, true, false, Option, none, some, List, [], ◌∷◌, ◌++◌, length,
  replicate,
}
use latch_playground.Common.Result.{ok}
use latch_playground.Text.{Text, lit, text_eq}
use latch_playground.Effects.{json, done, ◌>>=◌, call}
use latch_playground.Ceremony.{text}
use latch_playground.Chain.{
  Sdk, ChainConfig, given_text, AuthEntry, BaseTx, Tx, Passed, passed, scv_void, other_function,
}
use latch_playground.Server.{Event, simulated, counted_entries}
use latch_playground.Submit.{Submitted, poll, send, simulate}
use latch_playground.Submit.Webauthn.{SubmitBody, with_auth, submit_webauthn, submit_webauthn_post}
use latch_playground.Submit.Delegated.{DelegatedBody, submit_delegated_post}
use latch_playground.Submit.Phantom.{PhantomBody, submit_phantom_post}
use latch_playground.Submit.Sending.{sent_log, send_size}
use latch_playground.Submit.Vetted.{IsVetted, submit_webauthn-IsVetted, submit_delegated-IsVetted}
use latch_playground.Submit.Funded.{submit_phantom-IsVetted}
use latch_playground.Submit.Answered.{IsGiven, submit_webauthn-IsGiven}
use latch_playground.Factory.{
  Deployment, predict_address, is_deployed, poll_deployment, create_account, deploy, factory_tx,
  address_or,
}
use latch_playground.Factory.Deployed.{IsPolled, creation_log, deploy-IsPolled}
use latch_playground.SmartAccount.{
  Query, DeployBody, found, look_up_get, deploy_account, create, create_post,
}
use latch_playground.SmartAccount.Cached.{create-look_up}
use latch_playground.Tests.World.{services, call_entry, passed_once}
use latch_playground.Requests.{JsonBody, members, string_member}
use latch_playground.Caches.{cached}

abbrev base : BaseTx
base = record {
  source = lit "G";
  sequence = 9;
  fee = 200;
  op_source = none;
  func = other_function (lit "f");
  is_v1 = true;
  soroban_data = some (lit "d");
}

abbrev pub sdk : Sdk
sdk = record {
  testnet_passphrase = lit "Test";
  parse_transaction = λ xdr passphrase. ok base;
  print_transaction = λ tx. lit "t";
  parse_auth_entry = λ xdr. ok call_entry;
  print_auth_entry = λ e. lit "e";
  public_key_of = λ secret. ok (lit "G");
  decode_public_key = λ address. ok (replicate 32 1);
  encode_public_key = λ key. ok (lit "G");
  is_public_key = λ address. true;
  check_address = λ address. ok tt;
  check_contract = λ address. ok tt;
  xdr_of = λ v. [];
  preimage_xdr = λ id nonce expiration root. [];
  hash = λ bytes. replicate 32 0;
  contract_preimage = λ id deployer salt. [];
  encode_contract = λ bytes. lit "D";
  verify = λ key message signature. true;
  decode_base64 = λ t. replicate 64 2;
  encode_base64 = λ bytes. bytes;
  assembled_fee = λ fee p. fee + 7;
}

abbrev pub config : ChainConfig
config = record {
  network_passphrase = none;
  factory_address = some (lit "F");
  verifier_address = some (lit "V");
  webauthn_verifier_address = some (lit "W");
  bundler_secret = some (lit "S");
  counter_address = some (lit "N");
  smart_account_wasm_hash = none;
}

abbrev webauthn_body : JsonBody SubmitBody
webauthn_body = members (record {
  tx_xdr = some (lit "t");
  auth_entry_xdr = some (lit "e");
  sig_data_xdr = some (lit "0a");
  key_data_hex = some (lit "04");
  context_rule_id = some 3;
})

abbrev webauthn_log : List Event
webauthn_log = (submit_webauthn_post sdk config services webauthn_body []).1

webauthn_answers :
    submit_webauthn_post sdk config services webauthn_body []
    ≡ (json (record { hash = lit "h" }), webauthn_log)
unfolding submit_webauthn simulate send poll ◌>>=◌ call
webauthn_answers = refl

submit_webauthn-IsGiven_example :
    (tx : BaseTx) × (e : AuthEntry) × (secret : Text) × (p : Passed) × (v : Option Text) × (k : ℕ)
    × IsGiven sdk config webauthn_body tx e secret
    × (k < 30)
    × (webauthn_log
        ≡ sent_log
            (with_auth tx e)
            p
            secret
            (lit "h")
            v
            k
            (simulated (with_auth tx e) (ok (passed p)) ∷ []))
submit_webauthn-IsGiven_example =
    submit_webauthn-IsGiven sdk config services webauthn_body [] webauthn_answers

submit_webauthn-IsVetted_example : IsVetted webauthn_log
submit_webauthn-IsVetted_example = submit_webauthn-IsVetted sdk config services webauthn_body [] tt

abbrev delegated_body : JsonBody DelegatedBody
delegated_body = members (record {
  tx_xdr = some (lit "t");
  smart_account_auth_entry_xdr = some (lit "a");
  g_address_entry_template_xdr = some (lit "g");
  signed_auth_entry_base64 = some (lit "s");
  signer_address = some (lit "G");
})

submit_delegated-IsVetted_example :
    IsVetted (submit_delegated_post sdk config services delegated_body []).1
submit_delegated-IsVetted_example =
    submit_delegated-IsVetted sdk config services delegated_body [] tt

abbrev phantom_body : JsonBody PhantomBody
phantom_body = members (record {
  tx_xdr = some (lit "t");
  auth_entry_xdr = some (lit "e");
  auth_signature_hex = some (replicate 128 b'a');
  prefixed_message = some (lit "Stellar Smart Account Auth:\n" ++ replicate 64 b'0');
  public_key_hex = some (replicate 64 b'b');
})

submit_phantom-IsVetted_example :
    IsVetted (submit_phantom_post sdk config services phantom_body []).1
submit_phantom-IsVetted_example = submit_phantom-IsVetted sdk config services phantom_body [] tt

abbrev some_tx : Tx
some_tx = factory_tx (lit "G") 1 100 30 (lit "F") (lit "f") scv_void

send_size_example :
    length (send services {R = Submitted} "refused" some_tx passed_once (lit "S") []).1 ≤ 0 + 61
send_size_example = send_size services "refused" some_tx passed_once (lit "S") []

abbrev deploy_log : List Event
deploy_log = (deploy sdk services {R = Unit} (lit "F") (lit "S") scv_void (lit "C") []).1

abbrev new_account : Deployment
new_account = record { smart_account_address = lit "C"; already_deployed = false }

deploys :
    deploy sdk services {R = Unit} (lit "F") (lit "S") scv_void (lit "C") []
    ≡ (done new_account, deploy_log)
unfolding deploy is_deployed create_account poll_deployment text_eq ◌>>=◌ call
deploys = refl

deploy-IsPolled_example :
    (lit "C" ≡ lit "C")
    × (((false ≡ true) × (n : ℕ) × (0 < n) × (deploy_log ≡ counted_entries (lit "C") (ok n) ∷ []))
        ⊎ ((false ≡ false)
            × (source : Text) × (sequence : ℕ) × (p : Passed) × (hash : Text) × (answer : Option
                Text)
            × (sdk.public_key_of (lit "S") ≡ ok source)
            × (address_or (lit "C") answer ≡ lit "C")
            × IsPolled 30 hash answer
                (creation_log sdk services Unit
                  (lit "F")
                  (lit "S")
                  source
                  scv_void
                  sequence
                  p
                  hash
                  (counted_entries (lit "C") (ok 0) ∷ []))
                deploy_log))
deploy-IsPolled_example =
    deploy-IsPolled sdk services Unit (lit "F") (lit "S") scv_void (lit "C") [] deploys

abbrev create_body : JsonBody DeployBody
create_body =
    members (record { key_data_hex = text (replicate 132 b'4'); credential_id = text (lit "k") })

abbrev create_log : List Event
create_log = (create_post sdk config services create_body []).1

creates : create_post sdk config services create_body [] ≡ (json new_account, create_log)
unfolding create cached deploy_account predict_address deploy is_deployed create_account
    poll_deployment text_eq ◌>>=◌ call
creates = refl

create-look_up_example :
    (b : DeployBody) × (id : Text) × (create_body ≡ members b)
    × (string_member b.credential_id ≡ some id)
    × ((query : Query) (key : Text)
        → given_text query.credential_id ≡ some id
        → given_text query.key_data_hex ≡ some key
        → look_up_get sdk config services query create_log ≡ (json (found (lit "C")), create_log))
create-look_up_example = create-look_up sdk config services create_body [] creates
