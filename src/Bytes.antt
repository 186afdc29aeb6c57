-- ===== src/Bytes.antt =====
-- Memory as lists of bytes: `memcpy`, the little-endian integers of the platform, and the growing
-- buffers of src/include/sn.h.
pub mod Memory
pub mod Integer
pub mod Sn
