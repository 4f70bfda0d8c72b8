-- ===== src/Tests.antt =====
-- Runs of the code at concrete inputs.
mod Checked
mod Bitwise
mod CompInteger
mod Convert
mod InplaceSort
mod Scopes
mod Lexer
mod AstPool
mod OperatorStack
mod IdMap
mod IdentifierPool
mod CompHeap
