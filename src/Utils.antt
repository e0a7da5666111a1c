-- ===== src/Utils.antt =====
-- utils/: the string keys of the other parts, decimal numbers, paging and the stack.
pub mod Template
pub mod Strings
pub mod Texts
pub mod Paths
pub mod Decimal
pub mod Keys
pub mod Page
pub mod Stack
pub mod Aptos
