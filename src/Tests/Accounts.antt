-- ===== src/Tests/Accounts.antt =====
-- Accounts that are created from a key or a classic address.
use latch_playground.Common.{◌≡◌, refl, true, false, some, List, [], replicate, Option, ◌⊎◌}
use latch_playground.Text.{Text, lit, text_eq}
use latch_playground.Bytes.Hex.{from_hex}
use latch_playground.Effects.{json, ◌>>=◌, call, handle}
use latch_playground.Ceremony.{text}
use latch_playground.Chain.{given_text}
use latch_playground.Server.{Event, deploy_cache}
use latch_playground.Requests.{JsonBody, members, string_member}
use latch_playground.Caches.{cached, account_cached}
use latch_playground.Funding.{fund_if_missing}
use latch_playground.Factory.{Deployment, predict_address, poll_deployment, create_account}
use latch_playground.Submit.{poll}
use latch_playground.SmartAccount.{found}
use latch_playground.FreighterAccount.{
  DelegatedAccountBody, valid_address, look_up_delegated_get, create_delegated_chain,
  create_delegated, create_delegated_post,
}
use latch_playground.FreighterAccount.Created.{create_delegated-look_up}
use latch_playground.FactoryAccount.{
  KeyBody, KeyDeployment, key_of, create_key_account, create_key, create_key_post,
}
use latch_playground.FactoryAccount.Created.{create_key_twice}
use latch_playground.DeployAccount.{
  ContractDeployment, DeployConfig, deploy_config, deploy_contract, create_contract_account,
  deploy_account, deploy_account_post,
}
use latch_playground.DeployAccount.Reported.{IsConfigured}
use latch_playground.DeployAccount.Deployed.{IsFresh, deploy_account-IsFresh}
use latch_playground.Tests.World.{services}
use latch_playground.Tests.Chain.{sdk, config}

abbrev delegated_body : JsonBody DelegatedAccountBody
delegated_body = members (record { g_address = text (lit "G") })

abbrev delegated_log : List Event
delegated_log = (create_delegated_post sdk config services delegated_body []).1

abbrev created : Deployment
created = record { smart_account_address = lit "C"; already_deployed = false }

creates_delegated :
    create_delegated_post sdk config services delegated_body [] ≡ (json created, delegated_log)
unfolding create_delegated create_delegated_chain fund_if_missing predict_address create_account
    poll_deployment cached text_eq ◌>>=◌ call
creates_delegated = refl

create_delegated-look_up_example :
    (body : DelegatedAccountBody) × (g_address : Text) × (delegated_body ≡ members body)
    × (valid_address sdk (string_member body.g_address) ≡ some g_address)
    × ((query : Option Text)
        → valid_address sdk (given_text query) ≡ some g_address
        → look_up_delegated_get sdk config services query delegated_log
          ≡ (json (found (lit "C")), delegated_log))
create_delegated-look_up_example =
    create_delegated-look_up sdk config services delegated_body [] creates_delegated

abbrev key : Text
key = replicate 64 b'a'

abbrev key_body : JsonBody KeyBody
key_body = members (record { public_key_hex = text key })

abbrev key_log : List Event
key_log = (create_key_post sdk config services key_body []).1

abbrev key_account : KeyDeployment
key_account = record {
  smart_account_address = lit "C";
  g_address = lit "G";
  already_deployed = false;
}

creates_key : create_key_post sdk config services key_body [] ≡ (json key_account, key_log)
unfolding create_key create_key_account fund_if_missing poll account_cached from_hex text_eq ◌>>=◌
    call
creates_key = refl

create_key_twice_example :
    create_key_post sdk config services key_body key_log
    ≡ (json (record key_account { already_deployed = true }), key_log)
create_key_twice_example = create_key_twice sdk config services key_body [] creates_key

abbrev deploy_log : List Event
deploy_log = (deploy_account_post sdk config services key_body []).1

abbrev deployed_contract : ContractDeployment
deployed_contract = record {
  smart_account_address = lit "C";
  g_address = lit "G";
  already_deployed = false;
}

deploys : deploy_account_post sdk config services key_body [] ≡ (json deployed_contract, deploy_log)
unfolding deploy_account deploy_config create_contract_account deploy_contract poll account_cached
    from_hex text_eq ◌>>=◌ call handle
deploys = refl

deploy_account-IsFresh_example :
    (c : DeployConfig) × (body : KeyBody) × (k : Text) × IsConfigured config c
    × (key_body ≡ members body)
    × (key_of (string_member body.public_key_hex) ≡ some k)
    × (((false ≡ true)
          × (deploy_log ≡ [])
          × (account_cached deploy_cache [] k ≡ some (lit "C", lit "G")))
        ⊎ ((false ≡ false) × IsFresh sdk config services c k [] deployed_contract deploy_log))
deploy_account-IsFresh_example = deploy_account-IsFresh sdk config services key_body [] deploys
