-- ===== src/Operation.antt =====
-- lib/swagger-client.js, Operation: an operation of a Swagger 2.0 description, and how a call of it
-- becomes a request.
pub mod Types
pub mod Encode
pub mod Urlify
pub mod ContentTypes
pub mod Payload
pub mod Execute
pub mod Curl
pub mod Construct
