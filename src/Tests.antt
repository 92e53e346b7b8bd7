-- ===== src/Tests.antt =====
-- The theorems applied to concrete runs, tables, texts and requests.
pub mod RouterTests
pub mod MiddlewareTests
pub mod StaticTests
pub mod AuthTests
pub mod CompressionTests
pub mod UrlTests
pub mod TimerTests
pub mod SessionTests
pub mod StrandTests
pub mod MultipartTests
pub mod FieldTests
pub mod JsonTests
pub mod NamedTests
pub mod BodyTests
pub mod ParserTests
pub mod ServerTests
pub mod ClientTests
