-- ===== src/Hash/Map/Iterate.antt =====
-- The iterators of a map visit every entry once.
use k4c.Base.{List}
