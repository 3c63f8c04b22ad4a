-- ===== src/Config/Env/Ready.antt =====
-- A chain of the settings (src/config.rs), the next range of its checkpoint (src/checkpoint.rs) and
-- the queries for that range (src/planner.rs), one behind the other.
use ormpindexer.Checkpoint.{Checkpoint}
use ormpindexer.Config.Env.{Env}
