-- ===== src/App/Session.antt =====
-- backend/db/session.py: `get_db`, the session of a request.
use aerp.Prelude.{Result, ok, err, Exec}
use aerp.Database.{Db}

-- What other sessions see, and what this one has written besides.
pub record Session : Type 0 where
  pub committed : Db
  pub working : Db

abbrev pub commit : Session → Session
commit s = record s { committed = s.working }

abbrev pub rollback : Session → Session
rollback s = record s { working = s.committed }

-- After the route: an exception takes back what was not committed, and is raised again.
unfoldable pub settle : {A : Type 0} → Result A → Session → Result A × Session
settle (ok a) s = (ok a, commit s)
settle (err e) s = (err e, rollback s)

unfoldable pub get_db : {A : Type 0} → Exec Session A → Exec Session A
unfolding settle
get_db route s = let (r, s') = route s in settle r s'
