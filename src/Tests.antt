-- ===== src/Tests.antt =====
-- The properties at concrete inputs, and the vectors of the source's own tests.
mod Toy
mod V3
mod Bundle
mod Sfx
mod Diff
mod Preflight
mod Signed
mod Signing
mod Framing
mod Payload
mod Recovery
mod Suite
mod Capsule
mod Keypair
