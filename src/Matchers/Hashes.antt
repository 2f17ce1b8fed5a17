-- ===== src/Matchers/Hashes.antt =====
-- The groups by normalized title.
use Prim.Native.String.{String}
