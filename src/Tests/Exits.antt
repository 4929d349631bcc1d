-- ===== src/Tests/Exits.antt =====
-- A logger and its child, whose one transport is closed by hand, for `logquill/runtime/shutdown.py`.
use logquill_python.Base.{◌+◌, true, false, not, ◌&&◌, some, List, [], ◌∷◌, ◌≡◌, if◌then◌else◌}
use logquill_python.Level.{info}
use logquill_python.Privacy.{off}
use logquill_python.Logger.Lifecycle.{Handle, Faults, new, shutdown}
use logquill_python.Logger.Lifecycle.Closes.{closes, returned, attached}
use logquill_python.Logger.Lifecycle.Exit.{
  Step, creates, derives, closes_one, run, shutdown-closes_once,
}

abbrev root : Handle
root = record {
  name = "app";
  level = info;
  content_policy = off;
  transports = 1 ∷ 2 ∷ [];
  worker = some 0;
  context = [];
}

abbrev no_faults : Faults
no_faults = record { flush_raises = λ t. false; close_raises = λ t. false }

abbrev steps : List Step
steps = creates root true ∷ derives root "db" [] ∷ closes_one root ∷ []

shutdown-closes_once_example :
    (closes 1 (shutdown no_faults (run no_faults new steps)).events
      ≡ closes 1 (run no_faults new steps).events
        + (if attached (run no_faults new steps).registered 1
              && not (returned 1 (run no_faults new steps).events)
            then 1
            else 0))
    × (closes 1 (shutdown no_faults (shutdown no_faults (run no_faults new steps))).events
        ≡ closes 1 (shutdown no_faults (run no_faults new steps)).events)
shutdown-closes_once_example = shutdown-closes_once no_faults steps 1
