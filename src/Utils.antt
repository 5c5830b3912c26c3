-- ===== src/Utils.antt =====
-- utils/: the formula that is read and the model that is printed (SatUtils.cpp), and the settings of the
-- command line (Parameters.h).
pub mod Dimacs
pub mod Model
pub mod Parameters
