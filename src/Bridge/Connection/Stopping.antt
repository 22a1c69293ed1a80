-- ===== src/Bridge/Connection/Stopping.antt =====
-- What ends the loop over one connection (_serve_one_connection of bridge/bridge_server.py).
use rover_mind.Prelude.{
  ℕ, ◌≡◌, ◌⊎◌, inl, inr, Bool, true, false, List, [], ◌∷◌, Any, if◌then◌else◌, str_eq, Bool-cases,
}
use rover_mind.Prelude.Io.{Exception, Result, ok, err}
use rover_mind.Prelude.Text.{Unicode}
use rover_mind.Float.{Float}
use rover_mind.Bridge.Values.{Value, Interpreter}
use rover_mind.Bridge.Server.{Devices, Server, handle}
use rover_mind.Bridge.Connection.{
  Incoming, Ending, closed, open_still, crashed, Served, ends, serve_write, serve_reply,
  serve_request, serve_one_connection,
}

abbrev pub IsOver : Ending → Type 0
IsOver closed = Unit
IsOver open_still = ⊥
IsOver (crashed e) = Unit

if_closed :
    {R W : Type 0} (b : Bool) (e : Exception) (s : Server R W)
    → IsOver (if b then ends closed s else ends (crashed e) s).ending
if_closed true e s = tt
if_closed false e s = tt

module _ {R : Type 0} where
  -- The shutdown flag is up, or the read or the write of the round fails.
  abbrev pub ComesToEnd : Incoming R → Type 0
  ComesToEnd i =
      (i.shutdown ≡ true)
      ⊎ (((e : Exception) × (i.request ≡ err e)) ⊎ ((e : Exception) × (i.write ≡ err e)))

module _ (u : Unicode) {R W Image : Type 0} ⦃f : Float R⦄ (py : Interpreter R) (clock : ℕ → R)
    (devices : Devices R W Image) (next : Server R W → Served R W) where
  serve_write-IsOver :
      (reply : Value R) (write : Result Unit) (s : Server R W)
      → ((e : Exception) × (write ≡ err e)) ⊎ ((t : Server R W) → IsOver (next t).ending)
      → IsOver (serve_write u py clock devices next reply write s).ending
  unfolding serve_write
  serve_write-IsOver reply (ok tt) s (inl (e, failed)) = absurd (cc)
  serve_write-IsOver reply (ok tt) s (inr later) = later s
  serve_write-IsOver reply (err e) s h = if_closed (py.is_os_error e.kind) e s

  serve_reply-IsOver :
      (write : Result Unit) (r : Result (Value R) × Server R W)
      → ((e : Exception) × (write ≡ err e)) ⊎ ((t : Server R W) → IsOver (next t).ending)
      → IsOver (serve_reply u py clock devices next write r).ending
  unfolding serve_reply
  serve_reply-IsOver write (err e, s) h = tt
  serve_reply-IsOver write (ok reply, s) h = serve_write-IsOver reply write s h

  serve_request-IsOver :
      (request : Result (Value R)) (write : Result Unit) (s : Server R W)
      → ((e : Exception) × (request ≡ err e))
        ⊎ (((e : Exception) × (write ≡ err e)) ⊎ ((t : Server R W) → IsOver (next t).ending))
      → IsOver (serve_request u py clock devices next request write s).ending
  unfolding serve_request
  serve_request-IsOver (err e) write s h = if_closed (str_eq e.kind "MalformedFrameError") e s
  serve_request-IsOver (ok request) write s (inl (e, failed)) = absurd (cc)
  serve_request-IsOver (ok request) write s (inr h) =
      serve_reply-IsOver write (handle u py clock devices request s) h

module _ (u : Unicode) {R W Image : Type 0} ⦃f : Float R⦄ (py : Interpreter R) (clock : ℕ → R)
    (devices : Devices R W Image) where
  -- The loop ends by the first round with the shutdown flag up, or whose read or write fails.
  pub serve_one_connection-IsOver :
      (rounds : List (Incoming R)) (s : Server R W)
      → Any ComesToEnd rounds
      → IsOver (serve_one_connection u py clock devices rounds s).ending
  unfolding serve_one_connection
  serve_one_connection-IsOver [] s (none_there, x) = absurd none_there
  serve_one_connection-IsOver (i ∷ rest) s h = elim (Bool-cases i.shutdown) [
    | inl down ↦ rw down tt
    | inr up ↦ rw up (
        serve_request-IsOver u py clock devices (serve_one_connection u py clock devices rest)
          i.request i.write s
          (elim h [
            | inl (inl down) ↦ absurd (cc)
            | inl (inr (inl failed)) ↦ inl failed
            | inl (inr (inr failed)) ↦ inr (inl failed)
            | inr later ↦ inr (inr (λ t. serve_one_connection-IsOver rest t later))
          ]))
  ]
