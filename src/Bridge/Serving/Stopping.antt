-- ===== src/Bridge/Serving/Stopping.antt =====
-- The shutdown of the bridge server (serve_forever and shutdown of bridge/bridge_server.py).
use rover_mind.Prelude.{
  ℕ, ◌≡◌, refl, inl, inr, Bool, true, false, List, [], ◌∷◌, All, Any, if◌then◌else◌, str_eq,
  Bool-cases,
}
use rover_mind.Prelude.Io.{Exception, Result, ok, err}
use rover_mind.Prelude.Text.{Unicode}
use rover_mind.Float.{Float}
use rover_mind.Bridge.Values.{Interpreter}
use rover_mind.Bridge.Server.{Devices, Server}
use rover_mind.Bridge.Connection.{
  Incoming, Ending, closed, open_still, crashed, serve_one_connection,
}
use rover_mind.Bridge.Connection.Stopping.{IsOver, ComesToEnd, serve_one_connection-IsOver}
use rover_mind.Bridge.Serving.{
  Accepting, Serving, left, after_connection, ended, serve_accepted, accept_loop, serve_forever,
}

-- Every connection that is accepted comes to an end.
abbrev pub Disconnects : {R : Type 0} → Accepting R → Type 0
Disconnects {R} a = (rounds : List (Incoming R)) → a.accept ≡ ok rounds → Any ComesToEnd rounds

ended-IsOver : (ending : Ending) (close : Result Unit) → IsOver ending → IsOver (ended ending close)
ended-IsOver closed (ok tt) h = tt
ended-IsOver closed (err e) h = tt
ended-IsOver open_still close h = absurd h
ended-IsOver (crashed x) (ok tt) h = tt
ended-IsOver (crashed x) (err e) h = tt

module _ {R W : Type 0} (next : Server R W → Serving R W)
    (later : (t : Server R W) → IsOver (next t).ending) where
  after_connection-IsOver :
      (ending : Ending) (close : Result Unit) (s : Server R W)
      → IsOver ending
      → IsOver (after_connection next ending close s).ending
  unfolding after_connection
  after_connection-IsOver open_still close s h = absurd h
  after_connection-IsOver closed (ok tt) s h = later s
  after_connection-IsOver closed (err e) s h = tt
  after_connection-IsOver (crashed x) (ok tt) s h = tt
  after_connection-IsOver (crashed x) (err e) s h = tt

  if_waited :
      (b : Bool) (e : Exception) (s : Server R W)
      → IsOver (let t = next s in if b then t else left (crashed e) s).ending
  if_waited true e s = later s
  if_waited false e s = tt

module _ (u : Unicode) {R W Image : Type 0} ⦃f : Float R⦄ (py : Interpreter R) (clock : ℕ → R)
    (devices : Devices R W Image) where
  serve_accepted-IsOver :
      (next : Server R W → Serving R W) (accept : Result (List (Incoming R))) (close : Result Unit)
      (s : Server R W)
      → ((t : Server R W) → IsOver (next t).ending)
      → ((rounds : List (Incoming R)) → accept ≡ ok rounds → Any ComesToEnd rounds)
      → IsOver (serve_accepted u py clock devices next accept close s).ending
  unfolding serve_accepted
  serve_accepted-IsOver next (err e) close s later h =
      if_waited next later (str_eq e.kind "socket.timeout") e s
  serve_accepted-IsOver next (ok rounds) close s later h =
      let served = serve_one_connection u py clock devices rounds s in
      after_connection-IsOver next later served.ending close served.server
        (serve_one_connection-IsOver u py clock devices rounds s (h rounds refl))

  accept_loop-IsOver :
      (rounds : List (Accepting R)) (s : Server R W)
      → All Disconnects rounds
      → Any (λ (a : Accepting R). a.shutdown ≡ true) rounds
      → IsOver (accept_loop u py clock devices rounds s).ending
  unfolding accept_loop
  accept_loop-IsOver [] s all (none_there, x) = absurd none_there
  accept_loop-IsOver (a ∷ rest) s (finite, all) h = elim (Bool-cases a.shutdown) [
    | inl down ↦ rw down tt
    | inr up ↦ elim h [
      | inl down ↦ absurd (cc)
      | inr there ↦ rw up (
          serve_accepted-IsOver (accept_loop u py clock devices rest) a.accept a.close s
            (λ t. accept_loop-IsOver rest t all there) finite)
    ]
  ]

  -- The server ends by the first test of the shutdown flag that finds it up, where in each connection
  -- that it accepts the flag is found up, or a read or a write fails, at last: whatever else the
  -- clients, the handlers and the closing of the sockets do.
  pub serve_forever-IsOver :
      (close : Result Unit) (rounds : List (Accepting R)) (s : Server R W)
      → All Disconnects rounds
      → Any (λ (a : Accepting R). a.shutdown ≡ true) rounds
      → IsOver (serve_forever u py clock devices (ok tt) close rounds s).ending
  unfolding serve_forever
  serve_forever-IsOver close rounds s all h =
      ended-IsOver (accept_loop u py clock devices rounds s).ending close
        (accept_loop-IsOver rounds s all h)
