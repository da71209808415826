-- ===== src/Js.antt =====
-- What the console's scripts use of the JavaScript language: texts, objects, values, URI encoding.
pub mod Text
pub mod Dict
pub mod Space
pub mod Value
pub mod Uri
pub mod Json
