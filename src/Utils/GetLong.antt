-- ===== src/Utils/GetLong.antt =====
-- What `cwdaemon_get_long` of src/utils.c accepts, and the number that it reads.
pub mod Grammar
pub mod Accepted
