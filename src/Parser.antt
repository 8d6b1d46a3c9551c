-- ===== src/Parser.antt =====
-- pkg/parser/xmltool_parser.go: the parser of the tool calls that a model writes as text.
pub mod Text
pub mod Run
pub mod Ids
pub mod Cut
pub mod Parameters
pub mod Reference
pub mod Call
pub mod Legacy
pub mod Arguments
pub mod Extract
pub mod Standard
pub mod Entry
