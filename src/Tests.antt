-- ===== src/Tests.antt =====
-- Runs on concrete data, and the theorems at inputs that meet their hypotheses.
mod Kahn
mod Files
mod Trees
mod Walks
mod Stitching
mod Library
mod Compiling
mod Inputs
mod Commands
mod Hierarchy
mod Server
mod Frontend
mod Elaborate
mod Tool
mod Worker
mod Instances
