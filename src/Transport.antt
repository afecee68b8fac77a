-- ===== src/Transport.antt =====
-- The two ends of a connection together: the client of src/client/tcp_client.cpp and the session of
-- src/server/session.cpp. TCP hands over the bytes of one end to the other in order, in pieces.
use space_shooter_c.Prelude.{
  ℕ, ◌^◌, ◌<◌, ◌≡◌, refl, sym, ap, ◌∙◌, subst, true, false, List, [], ◌∷◌, ◌++◌, ok, arith, map,
  length,
}
use space_shooter_c.FrameCodec.{Frame, buffers, encode}
use space_shooter_c.FrameCodec.RoundTrip.{wire}
use space_shooter_c.Events.{network_message}
use space_shooter_c.Session as Server
use space_shooter_c.Session.{Session, SessionMove, fresh_session}
use space_shooter_c.Session.Reading as FromClient
use space_shooter_c.Session.Reading.{joined_chunks, frames_received}
use space_shooter_c.Session.Writing.{payloads}
use space_shooter_c.Session.Delivery.{writes_in_order}
use space_shooter_c.TcpClient.{Application, OutFrame, ClientMove, TcpClient, new_client}
use space_shooter_c.TcpClient.Handlers as Client
use space_shooter_c.TcpClient.Picking.{
  Picked, nothing, passed, taken, Picked-without, Picked-front, offers,
}
use space_shooter_c.TcpClient.Writing.{writes_in_turn}
use space_shooter_c.TcpClient.Reading as FromServer
use space_shooter_c.TcpClient.Reading.{IsPatient, HasRead, heards, messages_heard}

-- The bytes of frames, one after the other, and what they carry.
abbrev pub bytes_of : List OutFrame → List ℕ
bytes_of [] = []
bytes_of (f ∷ fs) = buffers f.frame ++ bytes_of fs

abbrev pub carried : List OutFrame → List (List ℕ)
carried [] = []
carried (f ∷ fs) = f.frame.payload ∷ carried fs

encoded_payload : (p : List ℕ) (f : Frame) → encode p ≡ ok f → f.payload ≡ p
unfolding encode
encoded_payload p f e = ground (arith, e)

wire-carried :
    {fs : List OutFrame} {ps : List (List ℕ)} → Picked fs ps → wire (carried fs) ≡ ok (bytes_of fs)
unfolding wire
wire-carried nothing = refl
wire-carried (passed p v) = wire-carried v
wire-carried (taken f p e v) =
    let own : encode f.frame.payload ≡ ok f.frame =
      subst (λ q. encode q ≡ ok f.frame) (sym (encoded_payload p f.frame e)) e in
    rw (own, wire-carried v) refl

-- From the client to the server: whatever the application, its callbacks and the network did to a new
-- client, in fewer than 2 ^ 64 moves, some of the frames that it handed to async_write, one after the
-- other, carry payloads of calls of send; and if their bytes reach an open session that waits for
-- bytes, with nothing left over, in any pieces, the session publishes one message for each of these
-- payloads, in order.
pub client_to_server :
    {F : Type 0} (app : Application) (moves : List ClientMove) (earlier part later : List OutFrame)
    (chunks : List (List ℕ)) (s : Session F)
    → length moves < 2 ^ 64
    → (Client.run app new_client moves).handed ≡ earlier ++ part ++ later
    → joined_chunks chunks ≡ bytes_of part
    → s.closed ≡ false
    → s.reading ≡ true
    → s.read_buffer ≡ []
    → Picked part (offers (Client.run app new_client moves).trace)
      × ((Server.run s (FromClient.arrivals chunks)).published
          ≡ s.published ++ map (network_message s.id) (carried part))
client_to_server app moves earlier part later chunks s h split same o r b =
    let c = Client.run app new_client moves in
    let all = (writes_in_turn app moves h).0 in
    let front =
      Picked-front (earlier ++ part) later (offers c.trace)
        (subst (λ fs. Picked fs (offers c.trace)) split all) in
    let picked : Picked part (offers c.trace) =
      Picked-without [] earlier part (offers c.trace) front in
    (
      picked,
      (frames_received (carried part) chunks s (wire-carried picked ∙ ap ok (sym same)) o r b).0,
    )

-- From the server to the client: whatever happened to a new session, the bytes that its socket was
-- given are the frames of the first payloads that were sent; and if they reach a connected client
-- that has only its read under way, with nothing left over, in any pieces, and its callbacks neither
-- throw nor call disconnect, then the application hears these payloads, each once and in order.
pub server_to_client :
    (F : Type 0) (id : ℕ) (moves : List SessionMove) (app : Application) (patient : IsPatient app)
    (chunks : List (List ℕ)) (g : ℕ) (c : TcpClient)
    → joined_chunks chunks ≡ (Server.run {F = F} (fresh_session id) moves).wire
    → HasRead g [] (heards c.trace) c
    → (sent : List (List ℕ)) × (rest : List (List ℕ)) × (sent ++ rest ≡ payloads moves)
      × (heards (Client.run app c (FromServer.arrivals chunks)).trace ≡ heards c.trace ++ sent)
server_to_client F id moves app patient chunks g c same v =
    let (sent, rest, split, framed, one, left) = writes_in_order F id moves in
    let heard = messages_heard app patient sent chunks g c (framed ∙ ap ok (sym same)) v in
    (sent, rest, split, heard.0)
