-- ===== src/Client.antt =====
-- The three command-line clients (src/ws_post.c, src/ws_get.c, src/ws_cfg.c) and what they share.
pub mod Url
pub mod Curl
pub mod Token
pub mod Codec
pub mod Buffers
pub mod Post
pub mod Request
pub mod Get
pub mod Journey
pub mod Config
pub mod ConfigJourney
