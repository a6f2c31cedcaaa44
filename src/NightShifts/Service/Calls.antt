-- ===== src/NightShifts/Service/Calls.antt =====
-- Calls of the service as data, so that histories of calls by several actors are lists.
use simple_ai_agent.Common.{String, Option, List, [], ◌∷◌}
use simple_ai_agent.NightShifts.Models.{JobStatus, NightShiftJob, Payload}
use simple_ai_agent.NightShifts.Storage.{World, Database}
use simple_ai_agent.NightShifts.Service.{create, transition, request_cancellation}

pub data Call : Type 0 where
  creates : NightShiftJob → String → Call
  transitions : String → JobStatus → String → Option Payload → Option String → Call
  cancels : String → String → Call

-- The database after a call, whether it returns or raises.
unfoldable pub perform : World → Call → Database → Database
unfolding create transition request_cancellation
perform w (creates job actor) db = (create w job actor db).1
perform w (transitions id target actor payload summary) db =
    (transition w id target actor payload summary db).1
perform w (cancels id actor) db = (request_cancellation w id actor db).1

unfoldable pub perform_all : World → List Call → Database → Database
unfolding perform
perform_all w [] db = db
perform_all w (c ∷ cs) db = perform_all w cs (perform w c db)
