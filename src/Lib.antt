-- ===== src/Lib.antt =====
-- The server and the passkey client of the Latch playground, a Next.js application for smart
-- accounts on Stellar that are signed for by passkeys, wallets and browser extensions.
--
-- Common holds the names, tests and lemmas that the other files share; Text models JavaScript's
-- strings as sequences of UTF-16 code units; Bytes the encodings of byte buffers. Code that is not
-- in the repository is a parameter: `new URL`, Web Crypto, cbor-x and `JSON.parse` are arguments of
-- the definitions that call them.
--
-- A route (Effects) runs in an environment that answers its calls. Every call is logged with its
-- answer, and the environment (Server.Services: the database through Prisma, the clock, random ids,
-- the WebAuthn library, the network) answers by the whole log, so a theorem holds for every sequence
-- of answers, failures included. A route ends with a value, an early answer with an error status, or
-- a thrown error, which the handler turns into status 500.
--
-- The parts:
-- Extension and Ceremony: lib/webauthn-server.ts. Which Chrome extension a request names, and which
--   RP id and origin a ceremony has (`resolveWebauthnCeremonyContext` when it begins,
--   `resolveWebauthnFinishVerification` when it ends). Thrown errors are constructors of
--   `CeremonyError`; their messages are given without the parenthesised list of places.
-- Session: lib/session.ts and lib/cookie-cross-site.ts.
-- Begin: app/api/webauthn/registration/begin and app/api/webauthn/authentication/begin. A challenge
--   is made, stored and answered.
-- Authentication: app/api/webauthn/authentication/finish. The stored challenge, the ceremony's
--   parameters and the library's verification lead to a login.
-- Registration: app/api/webauthn/registration/finish. The response is verified, the account is
--   deployed, and the credential and the account are written.
-- Chain: contract values, entries and transactions as the source puts them together, and the record
--   `Sdk` of what the Stellar SDK does (parsers, keys, hashes).
-- Entries: what is signed of an authorization entry (lib/soroban-auth-payload.ts), what an entry is for
--   (lib/soroban-auth-entries.ts), the entry of a delegated signer (Delegated:
--   lib/delegated-native-auth-entry.ts) and the signature of a classic account (Native:
--   lib/native-soroban-address-signature.ts).
-- Rules and Build: app/api/transaction/build, the search for the context rule and the transaction with
--   what is to be signed. BuildDelegated: app/api/transaction/build-delegated.
-- Flow: a built transaction that comes back signed, through both routes.
-- Funding: the funding of an account, which four routes have a copy of. Requests: the reading of bodies.
-- Factory: lib/smart-account-factory-webauthn.ts, with its 30 rounds of polling.
-- SmartAccount: app/api/smart-account/webauthn. FreighterAccount, FactoryAccount and DeployAccount: the
--   routes app/api/smart-account/freighter, app/api/smart-account/factory and app/api/smart-account.
--   Their caches (Caches) are what the log says was set.
-- Submit: app/api/transaction/submit-webauthn (Webauthn), submit-delegated (Delegated) and submit
--   (Phantom); the three share the simulation, the sending and the polling. The polling is bounded
--   by the source's own 30 rounds. Members of their bodies are taken to be of the types that the
--   source gives them, and error texts leave out the values that the source puts in.
-- Page: app/smart-accounts/page.tsx with the passkey's signature of lib/webauthn.ts. The page's state,
--   its handlers as tasks that update the page and ask the browser and the server, and the pages that
--   are reached by handlers that run one after the other.
-- Cors: middleware.ts. Recovery: app/api/recovery/backup-passkey.
-- Passkey, Der and Bytes: lib/webauthn.ts, with the COSE decoder of lib/webauthn-server.ts. The key
--   of a passkey, its key data, and the compact form of its signatures.
-- Tests: every theorem below that has hypotheses or arguments, at a concrete input.
--
-- Numbers are natural numbers; the times are milliseconds, as in the source, whose BigInt does not
-- overflow. Not modelled: the routes that list
-- and select accounts, what the React pages render,
-- handlers of the page that run at once, the connections of lib/wallets.ts, the logging of
-- errors.
pub mod Common
pub mod Text
pub mod Extension
pub mod Ceremony
pub mod Effects
pub mod Caches
pub mod Chain
pub mod Server
pub mod Session
pub mod Begin
pub mod Authentication
pub mod Bytes
pub mod Der
pub mod Passkey
pub mod Submit
pub mod DeployAccount
pub mod Entries
pub mod Build
pub mod BuildDelegated
pub mod Rules
pub mod Factory
pub mod FactoryAccount
pub mod FreighterAccount
pub mod Flow
pub mod Funding
pub mod SmartAccount
pub mod Registration
pub mod Requests
pub mod Cors
pub mod Recovery
pub mod Page
pub mod Tests
