-- ===== src/Prelude/Codes.antt =====
-- The result codes 0 and -1 of the operations.
pub data Ret : Type 0 where
  ok : Ret
  fail : Ret
