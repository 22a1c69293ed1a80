-- ===== src/Bridge/Serving/Sockets.antt =====
-- The sockets of the bridge server, and what ends it (serve_forever of bridge/bridge_server.py).
use rover_mind.Prelude.{
  ℕ, ◌≡◌, ◌≢◌, refl, sym, subst, ◌⊎◌, inl, inr, Bool, true, false, List, [], ◌∷◌, ◌++◌, Any,
  if◌then◌else◌, str_eq, Bool-cases,
}
use rover_mind.Prelude.Io.{Exception, Result, ok, err}
use rover_mind.Prelude.Text.{Unicode}
use rover_mind.Float.{Float}
use rover_mind.Bridge.Values.{Value, Interpreter}
use rover_mind.Bridge.Server.{Devices, Server}
use rover_mind.Bridge.Connection.{
  Incoming, Ending, closed, open_still, crashed, serve_one_connection,
}
use rover_mind.Bridge.Connection.Order.{EndsAt, AnswersInOrder, serve_one_connection-AnswersInOrder}
use rover_mind.Bridge.Serving.{
  Accepting, SocketCall, listens, accepts, closes, stops_listening, Serving, left, after_connection,
  ended, last_calls, serve_accepted, accept_loop, serve_forever,
}

-- Each accepted socket is closed before the next is accepted, except inside of a connection.
abbrev IsPaired : Ending → List SocketCall → Type 0
IsPaired ending [] = Unit
IsPaired ending (accepts ∷ []) = ending ≡ open_still
IsPaired ending (accepts ∷ closes ∷ rest) = IsPaired ending rest
IsPaired ending (accepts ∷ accepts ∷ rest) = ⊥
IsPaired ending (accepts ∷ listens ∷ rest) = ⊥
IsPaired ending (accepts ∷ stops_listening ∷ rest) = ⊥
IsPaired ending (listens ∷ rest) = ⊥
IsPaired ending (closes ∷ rest) = ⊥
IsPaired ending (stops_listening ∷ rest) = ⊥

-- The same of a server that stops listening when it ends.
abbrev pub IsOrderly : Ending → List SocketCall → Type 0
IsOrderly ending [] = ending ≡ open_still
IsOrderly ending (stops_listening ∷ []) = ending ≢ open_still
IsOrderly ending (accepts ∷ []) = ending ≡ open_still
IsOrderly ending (accepts ∷ closes ∷ rest) = IsOrderly ending rest
IsOrderly ending (accepts ∷ accepts ∷ rest) = ⊥
IsOrderly ending (accepts ∷ listens ∷ rest) = ⊥
IsOrderly ending (accepts ∷ stops_listening ∷ rest) = ⊥
IsOrderly ending (listens ∷ rest) = ⊥
IsOrderly ending (closes ∷ rest) = ⊥
IsOrderly ending (stops_listening ∷ next ∷ rest) = ⊥

last-IsOrderly :
    (ending : Ending) (close : Result Unit) → IsOrderly (ended ending close) (last_calls ending)
last-IsOrderly open_still (ok tt) = refl
last-IsOrderly open_still (err e) = refl
last-IsOrderly closed (ok tt) = λ e. cc
last-IsOrderly closed (err x) = λ e. cc
last-IsOrderly (crashed x) (ok tt) = λ e. cc
last-IsOrderly (crashed x) (err y) = λ e. cc

paired-IsOrderly :
    (ending : Ending) (close : Result Unit) (calls : List SocketCall)
    → IsPaired ending calls
    → IsOrderly (ended ending close) (calls ++ last_calls ending)
paired-IsOrderly ending close [] h = last-IsOrderly ending close
paired-IsOrderly ending close (accepts ∷ []) h =
    subst (λ (x : Ending). IsOrderly (ended x close) (accepts ∷ last_calls x)) (sym h) refl
paired-IsOrderly ending close (accepts ∷ closes ∷ rest) h = paired-IsOrderly ending close rest h
paired-IsOrderly ending close (accepts ∷ accepts ∷ rest) h = absurd h
paired-IsOrderly ending close (accepts ∷ listens ∷ rest) h = absurd h
paired-IsOrderly ending close (accepts ∷ stops_listening ∷ rest) h = absurd h
paired-IsOrderly ending close (listens ∷ rest) h = absurd h
paired-IsOrderly ending close (closes ∷ rest) h = absurd h
paired-IsOrderly ending close (stops_listening ∷ rest) h = absurd h

module _ (u : Unicode) {R W Image : Type 0} ⦃f : Float R⦄ (py : Interpreter R) (clock : ℕ → R)
    (devices : Devices R W Image) where
  -- The exception comes from accepting, from closing the socket, or out of the connection.
  abbrev pub Raises : Exception → Accepting R → Type 0
  Raises e a =
      ((a.accept ≡ err e) × (str_eq e.kind "socket.timeout" ≡ false))
      ⊎ ((a.close ≡ err e)
          ⊎ ((rounds : List (Incoming R)) × (a.accept ≡ ok rounds)
              × Any (EndsAt u py clock devices (crashed e)) rounds))

  -- Why the accept loop has ended.
  abbrev pub Reason : Ending → List (Accepting R) → Type 0
  Reason closed rounds = Any (λ (a : Accepting R). a.shutdown ≡ true) rounds
  Reason (crashed e) rounds = Any (Raises e) rounds
  Reason open_still rounds = Unit

  crashed-EndsAt :
      (e : Exception) (rounds : List (Incoming R)) (replies : List (Value R))
      → AnswersInOrder u py clock devices (crashed e) rounds replies
      → Any (EndsAt u py clock devices (crashed e)) rounds
  crashed-EndsAt e [] [] h = absurd (cc)
  crashed-EndsAt e [] (v ∷ vs) h = absurd h
  crashed-EndsAt e (i ∷ is) [] h = inl h
  crashed-EndsAt e (i ∷ is) (v ∷ vs) (answer, h) = inr (crashed-EndsAt e is vs h)

  later-Reason :
      (a : Accepting R) (rest : List (Accepting R)) (ending : Ending)
      → Reason ending rest
      → Reason ending (a ∷ rest)
  later-Reason a rest closed h = inr h
  later-Reason a rest (crashed e) h = inr h
  later-Reason a rest open_still h = tt

  abbrev IsLooped : List (Accepting R) → Serving R W → Type 0
  IsLooped rounds serving = IsPaired serving.ending serving.calls × Reason serving.ending rounds

  module _ (next : Server R W → Serving R W) (a : Accepting R) (rest : List (Accepting R))
      (ih : (s : Server R W) → IsLooped rest (next s)) where
    after_connection-IsLooped :
        (rounds : List (Incoming R)) (replies : List (Value R)) (ending : Ending)
        (close : Result Unit) (s : Server R W)
        → a.accept ≡ ok rounds
        → a.close ≡ close
        → AnswersInOrder u py clock devices ending rounds replies
        → IsLooped (a ∷ rest) (after_connection next ending close s)
    unfolding after_connection
    after_connection-IsLooped rounds replies open_still close s at ac h = (refl, tt)
    after_connection-IsLooped rounds replies closed (ok tt) s at ac h =
        ((ih s).0, later-Reason a rest (next s).ending (ih s).1)
    after_connection-IsLooped rounds replies closed (err e) s at ac h = (tt, inl (inr (inl ac)))
    after_connection-IsLooped rounds replies (crashed e) (ok tt) s at ac h =
        (tt, inl (inr (inr (rounds, at, crashed-EndsAt e rounds replies h))))
    after_connection-IsLooped rounds replies (crashed x) (err e) s at ac h =
        (tt, inl (inr (inl ac)))

    serve_accepted-IsLooped :
        (accept : Result (List (Incoming R))) (s : Server R W)
        → a.accept ≡ accept
        → IsLooped (a ∷ rest) (serve_accepted u py clock devices next accept a.close s)
    unfolding serve_accepted
    serve_accepted-IsLooped (ok rounds) s at =
        let served = serve_one_connection u py clock devices rounds s in
        after_connection-IsLooped rounds served.replies served.ending a.close served.server at refl
          (serve_one_connection-AnswersInOrder u py clock devices rounds s)
    serve_accepted-IsLooped (err e) s at = elim (Bool-cases (str_eq e.kind "socket.timeout")) [
      | inl waited ↦ rw waited ((ih s).0, later-Reason a rest (next s).ending (ih s).1)
      | inr other ↦ rw other (tt, inl (inl (at, other)))
    ]

    accepting-IsLooped :
        (down : Bool) (s : Server R W)
        → a.shutdown ≡ down
        → IsLooped (a ∷ rest) (
            if down
            then left closed s
            else serve_accepted u py clock devices next a.accept a.close s)
    accepting-IsLooped true s at = (tt, inl at)
    accepting-IsLooped false s at = serve_accepted-IsLooped a.accept s refl

  accept_loop-IsLooped :
      (rounds : List (Accepting R)) (s : Server R W)
      → IsLooped rounds (accept_loop u py clock devices rounds s)
  unfolding accept_loop
  accept_loop-IsLooped [] s = (tt, tt)
  accept_loop-IsLooped (a ∷ rest) s =
      accepting-IsLooped (accept_loop u py clock devices rest) a rest (accept_loop-IsLooped rest)
        a.shutdown s refl

  -- Why the server has ended, where it has: the shutdown, the closing of its own socket, or a round.
  abbrev pub ServerReason : Ending → Result Unit → List (Accepting R) → Type 0
  ServerReason closed close rounds = Any (λ (a : Accepting R). a.shutdown ≡ true) rounds
  ServerReason (crashed e) close rounds = (close ≡ err e) ⊎ Any (Raises e) rounds
  ServerReason open_still close rounds = Unit

  ended-ServerReason :
      (ending : Ending) (close : Result Unit) (rounds : List (Accepting R))
      → Reason ending rounds
      → ServerReason (ended ending close) close rounds
  ended-ServerReason open_still close rounds h = tt
  ended-ServerReason closed (ok tt) rounds h = h
  ended-ServerReason closed (err e) rounds h = inl refl
  ended-ServerReason (crashed x) (ok tt) rounds h = inr h
  ended-ServerReason (crashed x) (err e) rounds h = inl refl

  -- Once it listens, the server closes each socket that it accepted before it accepts the next, and
  -- its own socket last, however it ends; and it ends only by the shutdown, or by an exception from
  -- accepting (other than its timeout), from closing a socket, or out of a connection as
  -- _serve_one_connection raises it.
  pub serve_forever-IsOrderly :
      (close : Result Unit) (rounds : List (Accepting R)) (s : Server R W)
      → let serving = serve_forever u py clock devices (ok tt) close rounds s in
        (calls : List SocketCall) × (serving.calls ≡ listens ∷ calls)
        × IsOrderly serving.ending calls
        × ServerReason serving.ending close rounds
  unfolding serve_forever
  serve_forever-IsOrderly close rounds s =
      let serving = accept_loop u py clock devices rounds s in
      let (paired, reason) = accept_loop-IsLooped rounds s in
      (
        serving.calls ++ last_calls serving.ending,
        refl,
        paired-IsOrderly serving.ending close serving.calls paired,
        ended-ServerReason serving.ending close rounds reason,
      )
