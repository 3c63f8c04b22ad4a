-- ===== src/Config/Env/Numbers.antt =====
-- The numbers that are read (`parse::<u64>` in src/config.rs), against the numbers that are written.
