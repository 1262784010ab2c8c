-- ===== src/Str.antt =====
-- The utilities on strings of tkrzw_str_util.cc.
pub mod Serial
pub mod SerialRound
pub mod Search
pub mod SearchFirst
pub mod SearchMemchr
pub mod Split
pub mod SplitJoin
