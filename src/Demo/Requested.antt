-- ===== src/Demo/Requested.antt =====
-- The oci-image command on every outcome.
use runj.Demo.Delivered.{Delivered}
