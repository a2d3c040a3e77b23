-- ===== src/Requests.antt =====
-- The bodies of requests, as the routes read them.
use latch_playground.Common.{Option, none, some, List}
use latch_playground.Text.{Text}
use latch_playground.Effects.{Route, give, throw}
use latch_playground.Ceremony.{JsonMember, absent, text, other}
use latch_playground.Chain.{given_text}
use latch_playground.Server.{Event}
pub mod Read

-- A JSON body: text that is no JSON, the value `null`, or an object, with its members.
pub data JsonBody (A : Type 0) : Type 0 where
  malformed : JsonBody A
  null : JsonBody A
  members : A → JsonBody A

-- `const { … } = await request.json()`
abbrev pub json_body : {R A : Type 0} → JsonBody A → Route Event R A
json_body malformed = throw "Unexpected token in JSON"
json_body null = throw "Cannot destructure null"
json_body (members b) = give b

-- `!value || typeof value !== "string"` fails.
abbrev pub string_member : JsonMember → Option Text
string_member absent = none
string_member other = none
string_member (text s) = given_text (some s)
