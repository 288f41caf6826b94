-- ===== src/Lib.antt =====
-- The host SDK of the DFONE receiver (host_app/DFONE): a device with two TCP channels, one for
-- commands and their responses, one for IQ samples and recordings.
--
-- Parts and files:
--
-- - Net: `recv_socket` and `send_socket` of host_app/DFONE/src/common/include/dfone/internal/socket_compat.hpp,
--   `read_exact` and `write_all` of host_app/DFONE/src/transport/control_client.cpp. A socket is a script of what
--   the operating system does on it, and the bytes sent so far.
-- - Wire: the packet header and the command frame of internal/protocol.hpp, as they are written and
--   read in host_app/DFONE/src/transport. `receive_packet` is `read_packet` on a valid handle.
-- - Dial: the endpoint, and what the system calls answer that open a connection.
-- - OutputFile: what is left of an output file when its std::ofstream is closed or destroyed. The
--   recordings, the tools and the graphical program write files.
-- - Stream: `StreamClient` of host_app/DFONE/src/transport/stream_client.cpp, the data channel.
-- - Control: `ControlClient` of host_app/DFONE/src/transport/control_client.cpp, the command channel.
-- - Acquire: those of its commands that use both channels, captures and recordings.
-- - Session: `DfOneSession` of host_app/DFONE/src/public/session.cpp. Session/Methods has the connection and the
--   settings, Session/Calls the captures, recordings, constructors, and sequences of calls.
-- - Maintenance: texts of host_app/DFONE/src/public/maintenance.cpp. Maintenance/Text has the key=value reader and
--   the hexadecimal texts, Maintenance/Network the network configuration, Maintenance/Service the
--   protocol of the update service, Maintenance/Service/Requests the methods of `DfOneMaintenance`,
--   Maintenance/Update the firmware update.
-- - Cli: the tools. Cli/Numerals has the numbers of host_app/DFONE/user_gui/src/user_cli.cpp, Cli/Arguments its
--   loop over the arguments, Cli/Main the rest of its `main`, Cli/Example the `main` of
--   host_app/DFONE/examples/windows_cli_capture/main.cpp, of which host_app/DFONE/dist has a copy.
-- - Matlab: host_app/DFONE/matlab/dfone_mex.cpp. Matlab/Values has the conversions of arguments, Matlab/Capture the
--   struct of a capture, Matlab/Table the table of open sessions, Matlab/Commands and
--   Matlab/Operations the commands, Matlab/Dispatch `mexFunction`.
-- - Gui: the graphical program host_app/DFONE/user_gui/src/user_gui.cpp, without its drawing.
--   Gui/App has the state that the interface and the worker share, and its settings, Gui/Connection
--   the session that is opened, lost and opened again, Gui/Baseband `save_baseband_iq`,
--   Gui/Continuous `start_continuous_capture`, Gui/Updating the firmware update, Gui/Jobs the other
--   jobs, Gui/Worker the two threads as a step relation. Gui/Held is about what every job keeps of
--   the session, Gui/Marked about what it shows as running.
-- - Doa: direction finding. Doa/Peaks has `find_peaks` of host_app/DFONE/factory/src/doa_processing.cpp, whose
--   arithmetic of double is a parameter.
-- - Prelude: names, Boolean tests and lists over native numbers, byte literals.
-- - Tests: the models and the theorems at concrete inputs.
--
-- How they interact: a session owns one client of each channel and passes the data client to the
-- captures and recordings of the command client. The tools, the binding and the graphical program
-- only call the session's methods; their models call the models of these. A client passes its
-- socket to the packet reader, and that to the exact reads. Each function takes the state that it
-- reads and gives back the state that it leaves; the answer false of the source is `false` or
-- `none`, with the state of that path.
--
-- Machine integers are natural numbers: the 16-bit sequence number, the 64-bit byte counters and the
-- fields of the header keep their wrap-around. Values that arrive in a narrower type in the source
-- have their range as a hypothesis where a theorem needs it.
--
-- Loops are recursion on fuel. `read_exact` has one unit more than `supply`, which bounds the calls
-- of recv on a script; `write_all` two more than `send_steps`, which bounds the calls of send; the
-- two loops over packets one more than `pending`, the supply of the channel, of which every packet
-- uses at least the 32 bytes of its header; `recv_line` and the loop over the events of an update one
-- more than `supply`, of which a line uses its newline; `send_file_stream` one more than the file's
-- size; `to_string` one more than its number; `save_loop` one more than the bytes to record, of which
-- each round writes at least one. A round of a loop
-- always uses up something that its bound counts, so that the fuel outlasts the loop.
--
-- The continuous capture of the graphical program and its reconnection have no end of their own. They
-- run over a sequence of what their rounds meet, behind which the interface asks them to stop. What
-- the interface does during a job comes at the start of a round. A job whose thread has started and
-- whose function has not begun is `worker` of a desk.
--
-- A conversion of the MATLAB binding can have undefined behaviour. Such a call ends in the state in
-- which that begins, and a sequence of calls ends with it.
--
-- Not modelled: log lines, socket options and timeouts as times, the fraction of the progress
-- callbacks (a floating-point number) and with it the progress of a firmware update, the content of
-- a file whose writing has failed, texts on a terminal, the drawing of the user interface, its file
-- picker and file names, the exceptions of the standard library, and the floating-point signal
-- processing of spectra and of direction finding up to its spectrum. MATLAB's library is a
-- parameter: an array is a record of what the mx functions answer about it.
pub mod Prelude
pub mod Net
pub mod Wire
pub mod OutputFile
pub mod Dial
pub mod Stream
pub mod Cli
pub mod Matlab
pub mod Gui
pub mod Doa
pub mod Control
pub mod Acquire
pub mod Session
pub mod Maintenance
pub mod Tests
