-- ===== src/RemoteClusters/Races.antt =====
-- A stop that outlives its secret.
use naavik.Common.Table.{Table}
