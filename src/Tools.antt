-- ===== src/Tools.antt =====
-- What is beside the worker: the test support and the scripts.
pub mod DotEnv
pub mod AiCheck
