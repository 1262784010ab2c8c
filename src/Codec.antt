-- ===== src/Codec.antt =====
-- The number codecs of tkrzw_sys_config.h and tkrzw_str_util.cc.
pub mod VarNum
pub mod VarRound
pub mod FixNum
