-- ===== src/Tests.antt =====
-- Tests of the models, and the theorems at concrete inputs.
mod Data
mod Channels
mod Sessions
mod Recordings
mod Texts
mod Services
mod Updates
mod Tools
mod Bindings
mod Programs
mod Directions
