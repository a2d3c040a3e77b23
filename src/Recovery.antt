-- ===== src/Recovery.antt =====
-- app/api/recovery/backup-passkey/route.ts: the intent to add a backup passkey is recorded.
use latch_playground.Common.{ℕ, Option, none, some, List, [], ◌∷◌, String}
use latch_playground.Text.{Text, lit}
use latch_playground.Extension.{Environment}
use latch_playground.Ceremony.{JsonMember, absent}
use latch_playground.Effects.{Response, Route, ◌>>=◌, ◌>>◌, give, throw, call, catch_500, or_fail}
use latch_playground.Server.{
  Event, Services, SignerWrite, found_owned, found_intent, updated_signer, created_signer,
}
use latch_playground.Session.{get_or_create_session, clock_now}
use latch_playground.Requests.{JsonBody, malformed, null, members, string_member}
pub mod Owned

pub record RecoveryBody : Type 0 where
  pub smart_account_address : JsonMember
  pub label : Option Text

pub record RecoveryRequest : Type 0 where
  pub cookie : Option Text
  pub body : JsonBody RecoveryBody

-- `await request.json().catch(() => ({}))`, of which a member is read.
abbrev pub recovery_body : JsonBody RecoveryBody → Route Event Unit RecoveryBody
recovery_body malformed = give (record { smart_account_address = absent; label = none })
recovery_body null = throw "Cannot read properties of null"
recovery_body (members b) = give b

-- `label ?? "backup-passkey"`
abbrev pub label_or : Option Text → Text
label_or none = lit "backup-passkey"
label_or (some l) = l

module _ (env : Environment) (s : Services) where
  -- The row of an earlier intent is written over.
  abbrev pub write_intent : Option Text → SignerWrite → Route Event Unit Unit
  write_intent none row = call (λ log. s.create_signer log row) (created_signer row)
  write_intent (some id) row = call (λ log. s.update_signer log id row) (updated_signer id row)

  unfoldable pub recover : RecoveryRequest → Route Event Unit Unit
  recover req = do
    session ← get_or_create_session env s req.cookie
    body ← recovery_body req.body
    address ← or_fail 400 "Missing smartAccountAddress" (string_member body.smart_account_address)
    found ←
        call (λ log. s.find_owned log session.user_id address) (found_owned session.user_id address)
    owned ← or_fail 404 "Unknown account for this session user" found
    existing ← call (λ log. s.find_intent log address) (found_intent address)
    now ← clock_now env s
    write_intent existing
        (record { smart_account_address = address; label = label_or body.label; created_at = now })

  abbrev pub recover_post : RecoveryRequest → List Event → Response Unit × List Event
  recover_post req = catch_500 (recover req)
