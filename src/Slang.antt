-- ===== src/Slang.antt =====
-- src/svhier/slang_frontend.py: the SystemVerilog frontend.
pub mod Merge
pub mod Compile
pub mod Elaborate
pub mod Search
pub mod Headers
pub mod CommandFiles
