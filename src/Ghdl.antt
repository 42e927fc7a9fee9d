-- ===== src/Ghdl.antt =====
-- The GHDL plugin, plugins/svhier-ghdl/src/svhier_ghdl/__init__.py.
pub mod Libraries
pub mod Frontend
pub mod Hierarchy
pub mod Instances
pub mod Runs
pub mod Fragments
pub mod Elaborate
pub mod Errors
pub mod Collect
pub mod Server
pub mod Tool
pub mod Library
pub mod Worker
