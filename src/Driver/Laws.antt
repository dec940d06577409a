-- ===== src/Driver/Laws.antt =====
-- What a successful build has done, and how failures come out.
