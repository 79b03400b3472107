-- ===== src/Skip/Insert/Found.antt =====
-- `skip_insert` with a key that is in the list: what the whole call does.
