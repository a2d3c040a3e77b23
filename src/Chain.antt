-- ===== src/Chain.antt =====
-- What the server hands to the Stellar SDK and gets back from the network: contract values,
-- authorization entries and transactions as the source puts them together. The SDK itself, its
-- parsers, keys and hashes, is the record `Sdk`, a parameter of the routes.
use latch_playground.Common.{ℕ, ℤ, Bool, Option, none, some, List, [], ◌∷◌, String}
use latch_playground.Common.Result.{Result}
use latch_playground.Text.{Text}

-- `xdr.ScVal`, by the constructors that are called.
mutual
  pub data ScVal : Type 0 where
    scv_symbol : Text → ScVal
    scv_bytes : List ℕ → ScVal
    scv_address : Text → ScVal
    scv_u32 : ℕ → ScVal
    scv_void : ScVal
    scv_other : Text → ScVal
    scv_vec : ScVals → ScVal
    scv_map : ScEntries → ScVal

  pub data ScVals : Type 0 where
    no_values : ScVals
    value : ScVal → ScVals → ScVals

  pub data ScEntries : Type 0 where
    no_entries : ScEntries
    entry : (key val : ScVal) → ScEntries → ScEntries

-- An address, by its text, or one that `Address.fromScAddress` does not read.
pub data ScAddress : Type 0 where
  known : Text → ScAddress
  unreadable : Text → ScAddress

pub data AuthorizedFunction : Type 0 where
  contract_fn : ScAddress → (function : Text) → ScVals → AuthorizedFunction
  create_contract_fn : Text → AuthorizedFunction

mutual
  pub data Invocation : Type 0 where
    invocation : AuthorizedFunction → Invocations → Invocation

  pub data Invocations : Type 0 where
    no_invocations : Invocations
    sub_invocation : Invocation → Invocations → Invocations

pub record AddressCredentials : Type 0 where
  pub address : ScAddress
  pub nonce : ℤ
  pub expiration : ℕ
  pub signature : ScVal

pub data Credentials : Type 0 where
  source_account : Credentials
  of_address : AddressCredentials → Credentials

-- `xdr.SorobanAuthorizationEntry`
pub record AuthEntry : Type 0 where
  pub credentials : Credentials
  pub root : Invocation

-- An entry as a simulation gives it: in base64, or decoded.
pub data RawEntry : Type 0 where
  encoded : Text → RawEntry
  decoded : AuthEntry → RawEntry

pub data HostFunction : Type 0 where
  call_contract : (contract function : Text) → ScVals → HostFunction
  create_contract : (deployer : Text) → (wasm_hash salt : List ℕ) → ScVals → HostFunction
  other_function : Text → HostFunction

-- `Operation.invokeHostFunction`
pub record Operation : Type 0 where
  pub source : Option Text
  pub func : HostFunction
  pub auth : List AuthEntry

-- What is read of a parsed transaction and of its first operation.
pub record BaseTx : Type 0 where
  pub source : Text
  pub sequence : ℕ
  pub fee : ℕ
  pub op_source : Option Text
  pub func : HostFunction
  pub is_v1 : Bool
  pub soroban_data : Option Text

-- `contract.call(function, ...args)`
abbrev pub contract_call : (contract function : Text) → ScVals → Operation
contract_call contract function args = record {
  source = none;
  func = call_contract contract function args;
  auth = [];
}

-- A transaction as it is built: `timeout` is none where the time bounds are those of the
-- transaction that it was cloned from.
pub record Tx : Type 0 where
  pub source : Text
  pub sequence : ℕ
  pub fee : ℕ
  pub timeout : Option ℕ
  pub soroban_data : Option Text
  pub operation : Operation

-- A transaction with one operation.
abbrev pub tx_of : (source : Text) → (sequence fee timeout : ℕ) → Operation → Tx
tx_of source sequence fee timeout operation = record {
  source = source;
  sequence = sequence;
  fee = fee;
  timeout = some timeout;
  soroban_data = none;
  operation = operation;
}

-- What `scValToNative` makes of a value, as far as the routes read it.
mutual
  pub data Native : Type 0 where
    number : ℕ → Native
    string : Text → Native
    array : Natives → Native
    object : Members → Native
    nothing : Native
    other_native : Native

  pub data Natives : Type 0 where
    no_natives : Natives
    native : Native → Natives → Natives

  pub data Members : Type 0 where
    no_members : Members
    member : (name : Text) → Native → Members → Members

-- A simulation that passed: `transactionData`, the value returned, and `result.auth`, empty where it
-- is missing.
pub record Passed : Type 0 where
  pub resources : Text
  pub min_resource_fee : Text
  pub return_value : Option Native
  pub auth : List RawEntry
  pub latest_ledger : ℕ

pub data Simulation : Type 0 where
  simulation_error : String → Simulation
  passed : Passed → Simulation

pub data Sent : Type 0 where
  refused : Sent
  accepted : Text → Sent

pub data TxStatus : Type 0 where
  not_found failed : TxStatus
  success : Option Text → TxStatus

pub record Sdk : Type 0 where
  pub testnet_passphrase : Text
  pub parse_transaction : (xdr passphrase : Text) → Result String BaseTx
  pub print_transaction : Tx → Text
  pub parse_auth_entry : Text → Result String AuthEntry
  pub print_auth_entry : AuthEntry → Text
  pub public_key_of : (secret : Text) → Result String Text
  pub decode_public_key : Text → Result String (List ℕ)
  pub encode_public_key : List ℕ → Result String Text
  pub is_public_key : Text → Bool
  pub check_address : Text → Result String Unit
  pub check_contract : Text → Result String Unit
  pub xdr_of : ScVal → List ℕ
  pub preimage_xdr : (network_id : List ℕ) → ℤ → (expiration : ℕ) → Invocation → List ℕ
  pub hash : List ℕ → List ℕ
  pub contract_preimage : (network_id : List ℕ) → (deployer : Text) → (salt : List ℕ) → List ℕ
  pub encode_contract : List ℕ → Text
  pub verify : (public_key : Text) → (message signature : List ℕ) → Bool
  pub decode_base64 : Text → List ℕ
  pub encode_base64 : List ℕ → Text
  pub assembled_fee : (fee : ℕ) → Passed → ℕ

-- The variables of `process.env` that the chain's routes read.
pub record ChainConfig : Type 0 where
  pub network_passphrase : Option Text
  pub factory_address : Option Text
  pub verifier_address : Option Text
  pub webauthn_verifier_address : Option Text
  pub bundler_secret : Option Text
  pub counter_address : Option Text
  pub smart_account_wasm_hash : Option Text

-- A variable or member that is missing or empty counts as not given.
abbrev pub given_text : Option Text → Option Text
given_text none = none
given_text (some []) = none
given_text (some (c ∷ s)) = some (c ∷ s)

abbrev pub or_testnet : Text → Option Text → Text
or_testnet testnet none = testnet
or_testnet testnet (some s) = s

abbrev pub passphrase_of : Sdk → ChainConfig → Text
passphrase_of sdk config = or_testnet sdk.testnet_passphrase (given_text config.network_passphrase)
