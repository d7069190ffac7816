-- ===== src/Station/Restart.antt =====
-- What follows for the shifts of a kitchen queue from the automaton of module Phase.
use gitrema_backend.Station.Phase.{Phase}
