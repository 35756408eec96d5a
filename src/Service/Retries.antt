-- ===== src/Service/Retries.antt =====
-- Which failures of the model leave a job its attempts.
use mentor_ia_worker.Service.{Service}
