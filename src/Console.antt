-- ===== src/Console.antt =====
-- swagger-ui.js: the parts of the console page that are no rendering.
pub mod Xml
pub mod Pages
pub mod Form
pub mod Panel
pub mod View
pub mod Resource
