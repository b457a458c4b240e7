-- ===== src/Wechat.antt =====
-- src/wechat: the messages of the platform, their signatures and their encryption.
pub mod Message
pub mod Primitives
pub mod Signature
pub mod Crypto
