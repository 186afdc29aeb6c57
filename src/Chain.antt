-- ===== src/Chain.antt =====
-- The chain of blocks that records the files of a peer: src/transaction.c with
-- src/transaction/file_add.c, src/block.c and src/root.c.
pub mod Text
pub mod Transaction
pub mod Block
pub mod Root
