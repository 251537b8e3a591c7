-- ===== src/Http.antt =====
-- include/vermell/http/message.hpp
pub mod Text
pub mod Decode
pub mod Response
pub mod Chunked
pub mod Head
pub mod Message
pub mod Multipart
