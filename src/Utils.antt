-- ===== src/Utils.antt =====
-- Helpers of src/utils.c and src/include/utils.h.
pub mod Hex
