-- ===== src/Tests.antt =====
-- The theorems at concrete inputs, and runs of the modelled functions.
mod Data
mod Views
mod Authorizations
mod Encoding
mod Requests
mod Listing
mod Http
mod Build
mod Oauth
mod Console
mod Call
mod Construct
mod Client
mod Models
mod Resolver
