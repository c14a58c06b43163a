-- ===== src/Server/Screencasts/Live.antt =====
-- The requests for frames are those of screencasts that exist.
