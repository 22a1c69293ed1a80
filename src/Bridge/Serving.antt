-- ===== src/Bridge/Serving.antt =====
-- The life of the bridge server (serve_forever, _parse_bind and main of bridge/bridge_server.py), over
-- what its calls of the socket library come to.
pub mod Sockets
pub mod Stopping
use rover_mind.Prelude.{
  ℕ, String, Bool, true, false, ◌==◌, Option, none, some, List, [], ◌∷◌, ◌++◌, if◌then◌else◌,
  str_eq,
}
use rover_mind.Prelude.Int.{ℤ}
use rover_mind.Prelude.Io.{Exception, Result, ok, err, exception}
use rover_mind.Prelude.Text.{Unicode}
use rover_mind.Float.{Float}
use rover_mind.Bridge.Values.{Value, Interpreter}
use rover_mind.Bridge.Server.{Devices, Server}
use rover_mind.Bridge.Connection.{
  Incoming, Ending, closed, open_still, crashed, Served, serve_one_connection,
}
use Prim.Native.Char.{code}

-- One round of the accept loop: the flag `self._shutdown`, the rounds of the connection that `accept`
-- gives, and what closing its socket does.
pub record Accepting (R : Type 0) : Type 0 where
  pub shutdown : Bool
  pub accept : Result (List (Incoming R))
  pub close : Result Unit

-- The calls on sockets, in their order.
pub data SocketCall : Type 0 where
  listens accepts closes stops_listening : SocketCall

pub record Serving (R W : Type 0) : Type 0 where
  pub replies : List (List (Value R))
  pub calls : List SocketCall
  pub ending : Ending
  pub server : Server R W

-- The outer `finally`, with what `self._listener.close()` does.
abbrev pub ended : Ending → Result Unit → Ending
ended open_still close = open_still
ended ending (err e) = crashed e
ended (crashed e) (ok tt) = crashed e
ended closed (ok tt) = closed

abbrev pub last_calls : Ending → List SocketCall
last_calls open_still = []
last_calls closed = stops_listening ∷ []
last_calls (crashed e) = stops_listening ∷ []

module _ {R W : Type 0} where
  abbrev pub left : Ending → Server R W → Serving R W
  left ending s = record { replies = []; calls = []; ending = ending; server = s }

  -- The `finally` of a connection: its socket is closed, and an exception of that replaces another.
  -- A script that ends inside of the connection closes nothing.
  unfoldable pub after_connection :
      (Server R W → Serving R W) → Ending → Result Unit → Server R W → Serving R W
  after_connection next open_still close s = record (left open_still s) { calls = accepts ∷ [] }
  after_connection next ending (err e) s = record (left (crashed e) s) {
    calls = accepts ∷ closes ∷ [];
  }
  after_connection next (crashed e) (ok tt) s = record (left (crashed e) s) {
    calls = accepts ∷ closes ∷ [];
  }
  after_connection next closed (ok tt) s =
      let later = next s in record later { calls = accepts ∷ closes ∷ later.calls }

  abbrev pub stop_listening : Result Unit → Serving R W → Serving R W
  stop_listening close serving = record serving {
    calls = serving.calls ++ last_calls serving.ending;
    ending = ended serving.ending close;
  }

module _ (u : Unicode) {R W Image : Type 0} ⦃f : Float R⦄ (py : Interpreter R) (clock : ℕ → R)
    (devices : Devices R W Image) where
  -- The body of the accept loop.
  unfoldable pub serve_accepted :
      (Server R W → Serving R W)
      → Result (List (Incoming R))
      → Result Unit
      → Server R W
      → Serving R W
  unfolding after_connection serve_one_connection
  serve_accepted next (err e) close s =
      let later = next s in if str_eq e.kind "socket.timeout" then later else left (crashed e) s
  serve_accepted next (ok rounds) close s =
      let served = serve_one_connection u py clock devices rounds s in
      let later = after_connection next served.ending close served.server in
      record later { replies = served.replies ∷ later.replies }

  unfoldable pub accept_loop : List (Accepting R) → Server R W → Serving R W
  unfolding serve_accepted
  accept_loop [] s = left open_still s
  accept_loop (a ∷ rest) s =
      if a.shutdown then left closed s else serve_accepted (accept_loop rest) a.accept a.close s

  -- First what the calls up to `settimeout` come to, which stand outside of the `try`.
  unfoldable pub serve_forever :
      Result Unit → Result Unit → List (Accepting R) → Server R W → Serving R W
  unfolding accept_loop
  serve_forever (err e) close rounds s = left (crashed e) s
  serve_forever (ok tt) close rounds s =
      let serving = stop_listening close (accept_loop rounds s) in
      record serving { calls = listens ∷ serving.calls }

-- `spec.partition(":")`, without the separator.
unfoldable pub partition : String → String × String
partition String.[] = ("", "")
partition (String.◌∷◌ c s) =
    let (before, after) = partition s in
    if code c == 58 then ("", s) else (String.◌∷◌ c before, after)

-- `_parse_bind`, with Python's `int` as a parameter.
unfoldable pub parse_bind : (String → Result ℤ) → String → Result (String × ℤ)
unfolding partition
parse_bind parse_int spec =
    let (host, port) = partition spec in
    elim (parse_int port) [ ok n ↦ ok (host, n) | err e ↦ err e ]

-- The end of `main`: a KeyboardInterrupt ends the server with status 0.
unfoldable pub exit_status : Ending → Option (Result ℕ)
exit_status closed = some (ok 0)
exit_status open_still = none
exit_status (crashed e) = if str_eq e.kind "KeyboardInterrupt" then some (ok 0) else some (err e)
