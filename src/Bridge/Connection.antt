-- ===== src/Bridge/Connection.antt =====
-- The loop over one connection (_serve_one_connection of bridge/bridge_server.py), over what its rounds
-- meet.
pub mod Order
pub mod Stopping
use rover_mind.Prelude.{ℕ, Bool, true, false, List, [], ◌∷◌, ◌++◌, if◌then◌else◌, str_eq}
use rover_mind.Prelude.Io.{Exception, Io, Result, ok, err}
use rover_mind.Prelude.Text.{Unicode}
use rover_mind.Float.{Float}
use rover_mind.Bridge.Values.{Value, Interpreter}
use rover_mind.Bridge.Server.{Devices, Server, handle}

-- One round: the flag `self._shutdown`, what `decode_frame` gives, and what writing the reply does.
pub record Incoming (R : Type 0) : Type 0 where
  pub shutdown : Bool
  pub request : Result (Value R)
  pub write : Result Unit

-- How the loop ends: it returns, so that the connection is closed and the next one is served; or an
-- exception leaves it, and the server with it. `open_still` is a script that ends before the loop.
pub data Ending : Type 0 where
  closed open_still : Ending
  crashed : Exception → Ending

pub record Served (R W : Type 0) : Type 0 where
  pub replies : List (Value R)
  pub ending : Ending
  pub server : Server R W

module _ {R W : Type 0} where
  abbrev pub ends : Ending → Server R W → Served R W
  ends e s = record { replies = []; ending = e; server = s }

module _ (u : Unicode) {R W Image : Type 0} ⦃f : Float R⦄ (py : Interpreter R) (clock : ℕ → R)
    (devices : Devices R W Image) where
  -- The write of a reply: an OSError closes the connection.
  pub serve_write : (Server R W → Served R W) → Value R → Result Unit → Server R W → Served R W
  serve_write next reply (ok tt) s =
      let served = next s in record served { replies = reply ∷ served.replies }
  serve_write next reply (err e) s =
      if py.is_os_error e.kind then ends closed s else ends (crashed e) s

  pub serve_reply :
      (Server R W → Served R W) → Result Unit → Result (Value R) × Server R W → Served R W
  unfolding serve_write
  serve_reply next write (err e, s) = ends (crashed e) s
  serve_reply next write (ok reply, s) = serve_write next reply write s

  pub serve_request :
      (Server R W → Served R W) → Result (Value R) → Result Unit → Server R W → Served R W
  unfolding serve_reply handle
  serve_request next (err e) write s =
      if str_eq e.kind "MalformedFrameError" then ends closed s else ends (crashed e) s
  serve_request next (ok request) write s =
      serve_reply next write (handle u py clock devices request s)

  unfoldable pub serve_one_connection : List (Incoming R) → Server R W → Served R W
  unfolding serve_request
  serve_one_connection [] s = ends open_still s
  serve_one_connection (i ∷ rest) s =
      if i.shutdown
      then ends closed s
      else serve_request (serve_one_connection rest) i.request i.write s
