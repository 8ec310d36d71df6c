-- ===== src/Client/Conn/Tests.antt =====
-- The theorems about a connection at small runs.
use goshire.Base.{◌≡◌, some, false, true, refl, ◌∷◌, [], arith}
use goshire.Text.{codes, str_eq}
use goshire.Client.Conn.{
  Call, Reply, Conn, result, new_conn, take_place, start_request, enqueue, on_outgoing, remember,
  on_response, find, forget, takes_place, starts, enqueues, writes, Reach, start, next, here,
}
use goshire.Client.Conn.Inflight.{HasPlaces, event_loop_goes_on}
use goshire.Client.Conn.Answers.{IsAnswered, response_answers}
use goshire.Client.Conn.Closing.{IsStranded, late_call-IsStranded}

abbrev call : Call
call = record { txn_id = codes "7"; caller = 1 }

abbrev other : Call
other = record { txn_id = codes "7"; caller = 2 }

abbrev done : Reply
done = record { txn_id = codes "7"; txn_status = codes "completed" }

-- A connection that has written the call.
abbrev waiting : Conn
waiting = record (new_conn 5) { inflight = 1; requests = call ∷ [] }

abbrev answered_conn : Conn
answered_conn = record (new_conn 5) { events = result 1 done ∷ [] }

to_waiting : Reach (new_conn 5) waiting
unfolding take_place start_request enqueue on_outgoing remember
to_waiting =
    next
      (next (next (next start (takes_place call (omega arith))) (starts call [] here))
        (enqueues call [] here (omega arith)))
      (writes call [] refl refl)

event_loop_goes_on_example :
    HasPlaces waiting
    × (waiting.max_in_flight ≡ 5)
    × ((k' : Conn) × (on_response waiting done ≡ some k'))
event_loop_goes_on_example = event_loop_goes_on 5 done to_waiting

response_answers_example : IsAnswered waiting answered_conn call done
unfolding on_response find forget str_eq
response_answers_example = response_answers 5 answered_conn call done to_waiting refl refl

abbrev ended : Conn
ended = record (new_conn 5) { connected = false; cleaned = true; inflight = 1; sending = call ∷ [] }

late_call-IsStranded_example : IsStranded 1 0 (enqueue ended call [])
late_call-IsStranded_example = late_call-IsStranded ended call [] refl refl here start
