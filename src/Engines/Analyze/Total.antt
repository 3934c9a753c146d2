-- ===== src/Engines/Analyze/Total.antt =====
-- `analyze` answers
-- (backend/src/home_compass/engines/__init__.py).
use home_compass.Engines.Floats.{Floats}
