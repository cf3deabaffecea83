-- ===== src/Lsi.antt =====
-- What an executor tells the server, by ls.h: LSI_OK, or LSI_ERROR after a call of
-- lsi_session_set_status. The server itself is not part of the repository: what it answers about a
-- request is an argument of the executors.
use litehttpd.Prelude.{ℕ}

pub data Verdict : Type 0 where
  lsi_ok : Verdict
  lsi_error : ℕ → Verdict
