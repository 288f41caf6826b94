-- ===== src/Doa.antt =====
-- Direction finding of factory/src/doa_processing.cpp: the peaks of a spectrum over the angles.
pub mod Peaks
