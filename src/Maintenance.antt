-- ===== src/Maintenance.antt =====
-- The maintenance API: public/maintenance.cpp and public/include/dfone/maintenance.hpp.
pub mod Text
pub mod Network
pub mod Service
pub mod Update
