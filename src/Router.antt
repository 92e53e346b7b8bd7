-- ===== src/Router.antt =====
-- The router: src/router/route.cpp and src/router/route_table.cpp with their headers.
pub mod Regex
pub mod Pattern
pub mod Route
pub mod Table
pub mod Named
