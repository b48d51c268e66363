-- ===== src/Floppy.antt =====
-- The floppy driver: system/drivers/floppy.c and include/system/floppy.h.
-- The `File` of the drive keeps its trace of writes to the CIA-B port and of waits, newest first.
-- `raw t` is what DMA delivers of track `t`, by 16-bit words; `int`s and `short`s are bit patterns.
-- The calls hold a mutex, and the sleep until the transfer ends is part of reading a track.
pub mod Drive
pub mod Decode
pub mod Read
pub mod PortBits
pub mod Port
pub mod Heads
pub mod Gaps
pub mod Mfm
pub mod Image
pub mod Open
pub mod Blank
mod Tests
