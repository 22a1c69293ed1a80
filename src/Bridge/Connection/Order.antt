-- ===== src/Bridge/Connection/Order.antt =====
-- The order of the replies on one connection, and what ends the server (_serve_one_connection of
-- bridge/bridge_server.py).
use rover_mind.Prelude.{
  ℕ, ◌≡◌, refl, ◌⊎◌, inl, inr, Bool, true, false, List, [], ◌∷◌, Bool-cases, if◌then◌else◌, str_eq,
}
use rover_mind.Prelude.Io.{Exception, Result, ok, err}
use rover_mind.Prelude.Text.{Unicode}
use rover_mind.Float.{Float}
use rover_mind.Bridge.Values.{Value, Interpreter}
use rover_mind.Bridge.Server.{Devices, Server, handle}
use rover_mind.Bridge.Server.Answering.{
  IsReply, reply_id, IsUnhashable, IsUncaught, Answered, handle-Answered,
}
use rover_mind.Bridge.Connection.{
  Incoming, Ending, closed, open_still, crashed, Served, serve_write, serve_reply, serve_request,
  serve_one_connection, ends,
}

module _ (u : Unicode) {R W Image : Type 0} ⦃f : Float R⦄ (py : Interpreter R) (clock : ℕ → R)
    (devices : Devices R W Image) where
  -- The round that ends the loop: a shutdown, a frame that cannot be read or a reply that cannot be
  -- written; and a request whose method is a list or a dict, or whose handler raises what
  -- `except Exception` does not catch.
  abbrev pub EndsAt : Ending → Incoming R → Type 0
  EndsAt closed i =
      (i.shutdown ≡ true)
      ⊎ (((e : Exception) × (i.request ≡ err e) × (str_eq e.kind "MalformedFrameError" ≡ true))
          ⊎ ((e : Exception) × (i.write ≡ err e) × (py.is_os_error e.kind ≡ true)))
  EndsAt (crashed e) i =
      ((i.request ≡ err e) × (str_eq e.kind "MalformedFrameError" ≡ false))
      ⊎ (((request : Value R) × (i.request ≡ ok request)
            × ((IsUnhashable request × (e.kind ≡ "TypeError"))
                ⊎ ((s : Server R W) × IsUncaught u py clock devices request s e)))
          ⊎ ((i.write ≡ err e) × (py.is_os_error e.kind ≡ false)))
  EndsAt open_still i = ⊥

  -- The replies answer the first rounds, one by one and in their order, and the round after them ends
  -- the loop as it ended.
  abbrev pub AnswersInOrder : Ending → List (Incoming R) → List (Value R) → Type 0
  AnswersInOrder ending [] [] = ending ≡ open_still
  AnswersInOrder ending [] (v ∷ vs) = ⊥
  AnswersInOrder ending (i ∷ is) [] = EndsAt ending i
  AnswersInOrder ending (i ∷ is) (v ∷ vs) =
      ((request : Value R) × (i.request ≡ ok request) × IsReply (reply_id request) v)
      × AnswersInOrder ending is vs

  abbrev IsServed : List (Incoming R) → Served R W → Type 0
  IsServed is served = AnswersInOrder served.ending is served.replies

  module _ (next : Server R W → Served R W) (i : Incoming R) (is : List (Incoming R))
      (ih : (t : Server R W) → IsServed is (next t)) where
    serve_write-IsServed :
        (request reply : Value R) (w : Result Unit) (s : Server R W)
        → i.request ≡ ok request
        → IsReply (reply_id request) reply
        → i.write ≡ w
        → IsServed (i ∷ is) (serve_write u py clock devices next reply w s)
    unfolding serve_write
    serve_write-IsServed request reply (ok tt) s e h hw = ((request, e, h), ih s)
    serve_write-IsServed request reply (err x) s e h hw =
        elim (Bool-cases (py.is_os_error x.kind)) [
          | inl os ↦ rw os (inr (inr (x, hw, os)))
          | inr other ↦ rw other (inr (inr (hw, other)))
        ]

    serve_reply-IsServed :
        (request : Value R) (r : Result (Value R) × Server R W) (s : Server R W)
        → i.request ≡ ok request
        → Answered u py clock devices request s r
        → IsServed (i ∷ is) (serve_reply u py clock devices next i.write r)
    unfolding serve_reply
    serve_reply-IsServed request (r, t) s e (inl ((reply, answer, h), hashable)) =
        rw answer (serve_write-IsServed request reply i.write t e h refl)
    serve_reply-IsServed request (r, t) s e (inr (inl (unhashable, (text, raised), same))) =
        rw raised (inr (inl (request, e, inl (unhashable, refl))))
    serve_reply-IsServed request (r, t) s e (inr (inr (x, uncaught, left))) =
        rw left (inr (inl (request, e, inr (s, uncaught))))

    serve_request-IsServed :
        (request : Result (Value R)) (s : Server R W)
        → i.request ≡ request
        → IsServed (i ∷ is) (serve_request u py clock devices next request i.write s)
    unfolding serve_request
    serve_request-IsServed (ok request) s e =
        serve_reply-IsServed request (handle u py clock devices request s) s e
          (handle-Answered u py clock devices request s)
    serve_request-IsServed (err x) s e = elim (Bool-cases (str_eq x.kind "MalformedFrameError")) [
      | inl lost ↦ rw lost (inr (inl (x, e, lost)))
      | inr other ↦ rw other (inl (e, other))
    ]

    round-IsServed :
        (down : Bool) (s : Server R W)
        → i.shutdown ≡ down
        → IsServed (i ∷ is) (
            if down
            then ends closed s
            else serve_request u py clock devices next i.request i.write s)
    round-IsServed true s e = inl e
    round-IsServed false s e = serve_request-IsServed i.request s refl

  -- Whatever the rounds of a connection bring, the replies answer its first requests in their order,
  -- each with its request's id, a result or a typed error. The round after them ends the loop: it
  -- returns there on a shutdown, on a MalformedFrameError or on an OSError of the write; an exception
  -- leaves it there on any other error of the read or the write, as a TypeError where the method of
  -- the request is a list or a dict, and where the handler raises what `except Exception` does not
  -- catch, such as KeyboardInterrupt.
  pub serve_one_connection-AnswersInOrder :
      (rounds : List (Incoming R)) (s : Server R W)
      → let served = serve_one_connection u py clock devices rounds s in
        AnswersInOrder served.ending rounds served.replies
  unfolding serve_one_connection
  serve_one_connection-AnswersInOrder [] s = refl
  serve_one_connection-AnswersInOrder (i ∷ rest) s =
      round-IsServed (serve_one_connection u py clock devices rest) i rest
        (serve_one_connection-AnswersInOrder rest) i.shutdown s refl
