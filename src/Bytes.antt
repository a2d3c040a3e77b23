-- ===== src/Bytes.antt =====
-- Byte buffers as lists of numbers: the hexadecimal and base64url codings of
-- lib/webauthn.ts and lib/webauthn-server.ts over `Buffer`.
pub mod Hex
pub mod Base64
pub mod Digits
