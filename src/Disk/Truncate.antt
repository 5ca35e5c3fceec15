-- ===== src/Disk/Truncate.antt =====
-- The clusters of a file of a QXL.WIN medium behind a sector become free (QDisk.c,
-- `QLWA_KillFileTail`).
