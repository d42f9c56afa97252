-- ===== src/Core.antt =====
-- The crate mangle-api-core: authentication, sessions and sockets that servers share.
pub mod Token
pub mod Bearer
pub mod Api
pub mod Credentials
pub mod Openid
pub mod Distributed
pub mod Webrtc
pub mod Oauth2
pub mod Ws
pub mod Siblings
pub mod Logging
pub mod Tls
