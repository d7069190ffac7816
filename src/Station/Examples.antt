-- ===== src/Station/Examples.antt =====
-- A day of two kitchen queues: tests of the service, and the theorems at concrete states.
use gitrema_backend.Prelude.{◌≡◌, refl, true, false, List, [], ◌∷◌}
use gitrema_backend.Prelude.Action.{failed, no_open_instance}
use gitrema_backend.Station.State.{StationState}
use gitrema_backend.Station.Service.{
  newest, start, started, change, close, close_log, pause, pause_log, resume_log,
}
use gitrema_backend.Station.Phase.{
  shift, Command, start_at, close_at, pause_at, resume_at, answer, serve, phase_of, phase_after,
  serve_all,
}
use gitrema_backend.Station.Changes.{outcome_phase}
use gitrema_backend.Station.Simulation.{serve-refines_answer}

abbrev no_logs : StationState
no_logs = record { logs = []; next_id = 1 }

abbrev busy_day : List Command
busy_day =
    start_at 100
    ∷ pause_at "oven" 200
    ∷ resume_at 300
    ∷ start_at 350
    ∷ close_at 400
    ∷ pause_at "cleaning" 500
    ∷ []

abbrev evening : StationState
unfolding start started change close close_log pause pause_log resume_log
evening = serve_all 1 7 busy_day no_logs

-- A shift that is closed can still be paused.
evening-phase : phase_of 7 evening ≡ shift false true
unfolding start started change close close_log pause pause_log resume_log
evening-phase = refl

other_queue : phase_of 8 evening ≡ phase_of 8 no_logs
unfolding start started change close close_log pause pause_log resume_log
other_queue = refl

close_twice : (serve 1 7 (close_at 600) evening).0 ≡ failed no_open_instance
unfolding start started change close close_log pause pause_log resume_log
close_twice = refl

serve-refines_answer_example :
    (outcome_phase (serve 1 7 (start_at 600) evening).0
      ≡ answer (start_at 600) (phase_of 7 evening))
    × (phase_of 7 (serve 1 7 (start_at 600) evening).1
        ≡ phase_after (answer (start_at 600) (phase_of 7 evening)) (phase_of 7 evening))
    × (newest 8 (serve 1 7 (start_at 600) evening).1 ≡ newest 8 evening)
serve-refines_answer_example = serve-refines_answer 1 7 8 (start_at 600) evening refl
