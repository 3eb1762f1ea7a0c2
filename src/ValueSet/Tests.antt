-- ===== src/ValueSet/Tests.antt =====
-- The builder run on two rows.
use shacl_engine.Common.{nat_ord}
