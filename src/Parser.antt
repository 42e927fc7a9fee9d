-- ===== src/Parser.antt =====
-- src/svhier/parser.py: from slang's elaborated design to a result. slang's objects are data here,
-- with the attributes that the code reads.
pub mod Symbols
pub mod Walk
pub mod Entries
pub mod Tables
pub mod Command
