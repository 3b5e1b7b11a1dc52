-- ===== src/RedisQueue/Copies.antt =====
-- How many copies of a job the keys of a queue hold.
pub mod Texts
pub mod Moves
pub mod Calls
pub mod Methods
pub mod Reaping
pub mod History
