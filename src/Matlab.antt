-- ===== src/Matlab.antt =====
-- The MATLAB binding: matlab/dfone_mex.cpp. MATLAB's own library is a parameter: an array is what
-- the mx functions answer about it.
pub mod Values
pub mod Capture
pub mod Table
pub mod Commands
pub mod Operations
pub mod Dispatch
