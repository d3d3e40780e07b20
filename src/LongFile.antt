-- ===== src/LongFile.antt =====
-- The files that hold one number: util/PersistentLongFile.h and util/BestEffortLongFile.h. A reader
-- gets what `get` returns together with the object, whose cache may have changed.
pub mod Persistent
pub mod BestEffort
pub mod Restart
