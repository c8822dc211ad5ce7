-- ===== src/Base64.antt =====
-- base64.rs: the codec. Encoders and decoders write into the memory of `Output`.
pub mod Alphabet
pub mod Output
pub mod Rfc4648
pub mod Encode
pub mod Decode
pub mod Unpadded
pub mod Wrapped
pub mod RoundTrip
