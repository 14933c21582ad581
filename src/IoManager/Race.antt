-- ===== src/IoManager/Race.antt =====
-- Two threads in IOManager::addEvent of corlib/ioscheduler.cpp that both find the table too small, with the
-- read lock given back and the write lock not taken yet.
use corlib.Callback.{Callback}
use corlib.IoManager.{IoManager}
