-- ===== src/Fifo.antt =====
-- src/fifo.rs: command headers, GPFIFO entries, channels and runlists.
pub mod Method
pub mod Gpfifo
pub mod Channel
pub mod Runlist
pub mod Encoding
pub mod Headers
pub mod Submit
pub mod Checked
pub mod Race
pub mod Crowd
