-- ===== src/Bridge/Tests/Endings.antt =====
-- A server that accepts, serves and stops.
use rover_mind.Prelude.{
  ℕ, String, ◌≡◌, refl, subst, inl, inr, All, Any, Bool, true, false, some, List, [], ◌∷◌,
  if◌then◌else◌, str_eq,
}
use rover_mind.Prelude.Int.{ℤ, pos}
use rover_mind.Prelude.Io.{Result, ok, err, ok-inj, exception}
use rover_mind.Float.Fixed.{Fixed, fixed_float}
use rover_mind.Bridge.Connection.{Incoming, closed, open_still, crashed}
use rover_mind.Bridge.Serving.{
  Accepting, SocketCall, listens, accepts, closes, stops_listening, Serving, serve_forever,
  parse_bind, exit_status,
}
use rover_mind.Bridge.Serving.Sockets.{IsOrderly, ServerReason, serve_forever-IsOrderly}
use rover_mind.Bridge.Connection.Stopping.{IsOver, ComesToEnd}
use rover_mind.Bridge.Serving.Stopping.{Disconnects, serve_forever-IsOver}
use rover_mind.Bridge.Tests.Calls.{tables, python, clock, devices, server, rounds}

abbrev leaves : List (Incoming Fixed)
leaves =
    record { shutdown = false; request = err (exception "MalformedFrameError" ""); write = ok tt }
    ∷ []

abbrev waits : Accepting Fixed
waits = record { shutdown = false; accept = err (exception "socket.timeout" ""); close = ok tt }

abbrev gives : List (Incoming Fixed) → Accepting Fixed
gives incoming = record { shutdown = false; accept = ok incoming; close = ok tt }

abbrev stops : Accepting Fixed
stops = record { shutdown = true; accept = err (exception "socket.timeout" ""); close = ok tt }

abbrev served : List (Accepting Fixed) → Serving Fixed ℕ
unfolding serve_forever
served script = serve_forever tables python clock devices (ok tt) (ok tt) script server

shut_down :
    (served (waits ∷ gives leaves ∷ stops ∷ [])).calls
    ≡ listens ∷ accepts ∷ closes ∷ stops_listening ∷ []
unfolding serve_forever
shut_down = refl

-- The request of the odd method ends the server.
abbrev script : List (Accepting Fixed)
script = waits ∷ gives leaves ∷ gives rounds ∷ stops ∷ []

abbrev is_crashed : Serving Fixed ℕ → Bool
is_crashed serving = elim serving.ending [
  | open_still ↦ false
  | closed ↦ false
  | crashed e ↦ str_eq e.kind "TypeError"
]

crashes : is_crashed (served script) ≡ true
unfolding serve_forever
crashes = refl

serve_forever-IsOrderly_example :
    let serving = serve_forever tables python clock devices (ok tt) (ok tt) script server in
    (calls : List SocketCall) × (serving.calls ≡ listens ∷ calls)
    × IsOrderly serving.ending calls
    × ServerReason tables python clock devices serving.ending (ok tt) script
serve_forever-IsOrderly_example =
    serve_forever-IsOrderly tables python clock devices (ok tt) script server

leaves_at_last : (incoming : List (Incoming Fixed)) → leaves ≡ incoming → Any ComesToEnd incoming
leaves_at_last incoming e =
    subst (Any ComesToEnd) e (inl (inr (inl (exception "MalformedFrameError" "", refl))))

abbrev short_script : List (Accepting Fixed)
short_script = waits ∷ gives leaves ∷ stops ∷ []

disconnect : All Disconnects short_script
disconnect = (
  λ incoming e. absurd (cc),
  (
    (λ incoming e. leaves_at_last incoming (ok-inj leaves incoming e)),
    ((λ incoming e. absurd (cc)), tt),
  ),
)

serve_forever-IsOver_example :
    IsOver (serve_forever tables python clock devices (ok tt) (ok tt) short_script server).ending
serve_forever-IsOver_example =
    serve_forever-IsOver tables python clock devices (ok tt) short_script server disconnect
      (inr (inr (inl refl)))

abbrev nine_thousand : String → Result ℤ
nine_thousand text = if str_eq text "9000" then ok (pos 9000) else err (exception "ValueError" text)

bound : parse_bind nine_thousand "127.0.0.1:9000" ≡ ok ("127.0.0.1", pos 9000)
unfolding parse_bind
bound = refl

interrupted : exit_status (crashed (exception "KeyboardInterrupt" "")) ≡ some (ok 0)
unfolding exit_status
interrupted = refl
