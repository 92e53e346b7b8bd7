-- ===== src/Parser.antt =====
-- Body parsers (src/parser).
pub mod Form
pub mod PlainText
pub mod Multipart
pub mod Field
pub mod JsonParser
