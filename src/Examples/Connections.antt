-- ===== src/Examples/Connections.antt =====
-- The client's connection at concrete histories and applications.
use space_shooter_c.Prelude.{◌++◌, ℕ, ◌+◌, ◌≤◌, ◌≡◌, refl, true, false, some, List, [], ◌∷◌, arith}
use space_shooter_c.FrameCodec.{encode, buffers, decode}
use space_shooter_c.FrameCodec.Bytes.{native_to_big}
use space_shooter_c.FrameCodec.RoundTrip.{wire}
use space_shooter_c.Events.{network_message}
use space_shooter_c.Session as Server
use space_shooter_c.Session.{Session, SessionMove, starts, sends, fresh_session}
use space_shooter_c.Session.Reading as FromClient
use space_shooter_c.Transport.{client_to_server, server_to_client}
use space_shooter_c.TcpClient.{
  OutFrame, apply_call, connect, apply_calls, send, enqueue_write, do_write, do_read, on_written,
  pop_front, next_write, Call, connect_call, send_call, disconnect_call, Note, asked, offered, left,
  answered, heard, ended, Application, reading, failed, succeeded, ClientMove, calls, strand_runs,
  completes, TcpClient, new_client,
}
use space_shooter_c.TcpClient.Handlers.{
  run, step, strand_step, run_task, start_connect, complete_nth, complete, on_resolved,
  on_connected, answer_pending, invoke_connect_callback, tell,
}
use space_shooter_c.TcpClient.Operations.{write_in, tally}
use space_shooter_c.TcpClient.Live.{Live}
use space_shooter_c.TcpClient.Generations.{run-Live}
use space_shooter_c.TcpClient.Phases.{down, phase_after, phase_of}
use space_shooter_c.TcpClient.Protocol.{trace_in_order}
use space_shooter_c.TcpClient.Owing.{times_asked, times_answered, times_posted, times_pending}
use space_shooter_c.TcpClient.Answers.{answers_once}
use space_shooter_c.TcpClient.Picking.{Picked, offers}
use space_shooter_c.TcpClient.Writing.{writes_in_turn}
use space_shooter_c.TcpClient.Reading.{IsPatient, HasRead, heards, arrivals, messages_heard}

-- An application that sends when a connect is answered, leaves on the first message, and connects
-- again when the connection has ended.
abbrev replies : List Note → List Call
replies [] = []
replies (n ∷ m ∷ ns) = replies (m ∷ ns)
replies (answered j b ∷ []) = send_call (5 ∷ []) ∷ send_call (6 ∷ []) ∷ []
replies (heard p ∷ []) = disconnect_call ∷ []
replies (ended ∷ []) = connect_call 8 ∷ []
replies (asked j ∷ []) = []
replies (offered p ∷ []) = []
replies (left ∷ []) = []

abbrev chatty : Application
chatty = record { reacts = replies; throws = λ ns. false }

-- A connect, a second one that is refused, the two writes of the application, a message, and the end
-- that the application asks for.
abbrev history : List ClientMove
history =
    calls (connect_call 7)
    ∷ calls (connect_call 9)
    ∷ strand_runs
    ∷ strand_runs
    ∷ completes 0 (succeeded [])
    ∷ completes 0 (succeeded [])
    ∷ strand_runs
    ∷ strand_runs
    ∷ strand_runs
    ∷ completes 1 (succeeded [])
    ∷ completes 0 (succeeded (0xDE ∷ 0xAD ∷ 0xBE ∷ 0xEF ∷ 0 ∷ 0 ∷ 0 ∷ 1 ∷ 4 ∷ []))
    ∷ strand_runs
    ∷ strand_runs
    ∷ completes 0 failed
    ∷ []

abbrev reached : TcpClient
reached = run chatty new_client history

trace_in_order_example : phase_after down reached.trace ≡ some (phase_of reached)
trace_in_order_example = trace_in_order chatty history

answers_once_example :
    ((j : ℕ)
      → times_asked j reached.trace
        ≡ times_answered j reached.trace
          + times_pending j reached.pending_connect_callback
          + times_posted j reached.tasks)
    × (reached.tasks ≡ []
        → reached.operations ≡ []
        → (j : ℕ) → times_asked j reached.trace ≡ times_answered j reached.trace)
answers_once_example = answers_once chatty history (omega arith)

writes_in_turn_example :
    let writes = tally (write_in reached.disconnect_generation) reached.operations in
    Picked reached.handed (offers reached.trace)
    × (writes ≤ 1)
    × (reached.disconnect_requested ≡ false → writes ≡ 0 → reached.write_queue ≡ [])
writes_in_turn_example = writes_in_turn chatty history (omega arith)

run-Live_example : Live reached.operations reached
run-Live_example = run-Live chatty history (omega arith)

abbrev silent : Application
silent = record { reacts = λ ns. []; throws = λ ns. false }

silent-IsPatient : IsPatient silent
silent-IsPatient = record { never_throws = λ ns. refl; never_leaves = λ ns. refl }

abbrev listening : TcpClient
listening = record new_client { is_connected = true; operations = reading 0 ∷ [] }

listening-HasRead : HasRead 0 [] [] listening
unfolding decode
listening-HasRead = record {
  connected = refl;
  unasked = refl;
  active = refl;
  current = refl;
  pending = refl;
  buffered = refl;
  told = refl;
}

-- The frames of 1, 2 and of 3 in three pieces.
abbrev pieces : List (List ℕ)
pieces =
    (0xDE ∷ [])
    ∷ (0xAD ∷ 0xBE ∷ 0xEF ∷ 0 ∷ 0 ∷ 0 ∷ 2 ∷ 1 ∷ [])
    ∷ (2 ∷ 0xDE ∷ 0xAD ∷ 0xBE ∷ 0xEF ∷ 0 ∷ 0 ∷ 0 ∷ 1 ∷ 3 ∷ [])
    ∷ []

messages_heard_example :
    let after = run silent listening (arrivals pieces) in
    (heards after.trace ≡ (1 ∷ 2 ∷ []) ∷ (3 ∷ []) ∷ [])
    × (after.read_buffer ≡ [])
    × (after.operations ≡ reading 0 ∷ [])
    × (after.is_connected ≡ true)
unfolding wire encode buffers native_to_big
messages_heard_example =
    messages_heard silent silent-IsPatient ((1 ∷ 2 ∷ []) ∷ (3 ∷ []) ∷ []) pieces 0 listening refl
      listening-HasRead

-- The frame of one byte.
abbrev framed : ℕ → ℕ → OutFrame
framed ref byte = record {
  ref = ref;
  frame = record { header = 0xDE ∷ 0xAD ∷ 0xBE ∷ 0xEF ∷ 0 ∷ 0 ∷ 0 ∷ 1 ∷ []; payload = byte ∷ [] };
}

-- Up to the second write of the application.
abbrev sending : List ClientMove
sending =
    calls (connect_call 7)
    ∷ strand_runs
    ∷ completes 0 (succeeded [])
    ∷ completes 0 (succeeded [])
    ∷ strand_runs
    ∷ strand_runs
    ∷ completes 1 (succeeded [])
    ∷ []

both_handed : (run chatty new_client sending).handed ≡ framed 0 5 ∷ framed 1 6 ∷ []
unfolding run step apply_call connect strand_step run_task start_connect complete_nth complete
    on_resolved on_connected answer_pending invoke_connect_callback tell apply_calls send encode
    native_to_big enqueue_write do_write do_read on_written pop_front next_write
both_handed = refl

abbrev two_pieces : List (List ℕ)
two_pieces = (0xDE ∷ 0xAD ∷ []) ∷ (0xBE ∷ 0xEF ∷ 0 ∷ 0 ∷ 0 ∷ 1 ∷ 6 ∷ []) ∷ []

abbrev listening_session : Session ℕ
listening_session = record (fresh_session 3) { reading = true }

-- The second frame that the client wrote, in two pieces.
client_to_server_example :
    Picked (framed 1 6 ∷ []) (offers (run chatty new_client sending).trace)
    × ((Server.run listening_session (FromClient.arrivals two_pieces)).published
        ≡ network_message 3 (6 ∷ []) ∷ [])
unfolding buffers
client_to_server_example =
    client_to_server chatty sending (framed 0 5 ∷ []) (framed 1 6 ∷ []) [] two_pieces
      listening_session (omega arith) both_handed refl refl refl refl

abbrev greeting : List SessionMove
greeting = starts ∷ sends (7 ∷ []) ∷ Server.strand_runs ∷ Server.strand_runs ∷ sends (8 ∷ []) ∷ []

server_to_client_example :
    (sent : List (List ℕ)) × (rest : List (List ℕ)) × (sent ++ rest ≡ (7 ∷ []) ∷ (8 ∷ []) ∷ [])
    × (heards
          (run silent listening
            (arrivals ((0xDE ∷ []) ∷ (0xAD ∷ 0xBE ∷ 0xEF ∷ 0 ∷ 0 ∷ 0 ∷ 1 ∷ 7 ∷ []) ∷ []))).trace
        ≡ sent)
unfolding encode buffers native_to_big Server.run Server.step Server.start Server.send
    Server.strand_step Server.run_task Server.do_read Server.enqueue_write Server.do_write
server_to_client_example =
    server_to_client ℕ 3 greeting silent silent-IsPatient
      ((0xDE ∷ []) ∷ (0xAD ∷ 0xBE ∷ 0xEF ∷ 0 ∷ 0 ∷ 0 ∷ 1 ∷ 7 ∷ []) ∷ []) 0 listening refl
      listening-HasRead
