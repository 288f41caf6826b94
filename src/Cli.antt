-- ===== src/Cli.antt =====
-- The command-line tools: user_gui/src/user_cli.cpp, and the example of
-- examples/windows_cli_capture/main.cpp, of which dist/ has a copy. Texts on the terminal are left
-- out; an exit code is a number.
pub mod Numerals
pub mod Arguments
pub mod Main
pub mod Example
