-- ===== src/Media/Lifecycle.antt =====
-- The operations of the media service and the invariant.
use mentis_eterna.Media.Tables.{Media}
