-- ===== src/Runtime/PrivilegedTurn/Status.antt =====
-- `PrivilegedTurn.armed_operation` and `status` of runtime/privileged_turn.py.
use simple_ai_agent.Common.{ℕ, String, not, ◌&&◌, Option, none, some, ◌==◌, ltb, leb, if◌then◌else◌}
use simple_ai_agent.Runtime.PrivilegedTurn.{
  PrivilegedTurn, inspection_operation, elevated_operation, is_absent,
}

unfoldable pub armed_operation : ℕ → PrivilegedTurn → Option String
unfolding is_absent
armed_operation now g = if is_absent g.turn && ltb now g.armed_until then some g.operation else none

unfoldable pub status : ℕ → PrivilegedTurn → String
unfolding is_absent
status now g =
    if not (is_absent g.turn)
    then (if leb g.deadline now
        then "expired"
        else if g.operation == elevated_operation
        then "active (each elevated request requires pending approval and UAC)"
        else if g.used
        then "consumed"
        else if g.operation == inspection_operation
        then "active (one inspection-only attempt)"
        else "active (one read-only collection)")
    else if leb g.armed_until now
    then "disabled"
    else if g.operation == inspection_operation
    then "inspection armed for next turn"
    else "armed for next turn"
