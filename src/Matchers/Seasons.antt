-- ===== src/Matchers/Seasons.antt =====
-- The groups by series and season.
use Prim.Native.String.{String}
