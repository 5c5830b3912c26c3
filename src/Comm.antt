-- ===== src/Comm.antt =====
-- painless-v2/painless-src/comm/MpiComm.cpp: communication between the processes.
pub mod Group
pub mod Wire
pub mod Process
pub mod Messages
