-- ===== src/Slab/Leak.antt =====
-- The smallest kind of slab for a size, and a full slab that gets a unit back.
use homemade_os.Slab.{Slab}
