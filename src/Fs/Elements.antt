-- ===== src/Fs/Elements.antt =====
-- A loop over `skipelem` of fs.c sees the elements of a path.
