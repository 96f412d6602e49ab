-- ===== src/Bio/Pool/Words.antt =====
-- demos/bio/bio.c: the pool with the words that it declares, which are none.
