-- ===== src/FileData/Write.antt =====
-- What `file_read` gives after `file_write`.
use os_zhenxiang.Inode.{Inode}
use os_zhenxiang.Volume.{Volume}
