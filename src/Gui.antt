-- ===== src/Gui.antt =====
-- The graphical program: user_gui/src/user_gui.cpp, without its drawing and its floating-point
-- signal processing. Its threads are the user interface and one worker.
pub mod App
pub mod Connection
pub mod Baseband
pub mod Continuous
pub mod Updating
pub mod Jobs
pub mod Worker
pub mod Marked
pub mod Held
