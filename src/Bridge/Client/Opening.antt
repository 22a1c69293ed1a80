-- ===== src/Bridge/Client/Opening.antt =====
-- The life of a client's connection (__init__, __enter__ and __exit__ of bridge/client.py), over the
-- calls of the socket library.
pub mod Closing
use rover_mind.Prelude.{
  ℕ, String, Bool, true, false, not, ◌||◌, ◌==◌, Option, none, some, List, [], ◌∷◌, if◌then◌else◌,
  str_eq, concat,
}
use rover_mind.Prelude.Io.{
  Exception, Io, Result, ok, err, exception, lift, mapped, ◌>>=◌, ◌>>◌, finally_io,
}
use rover_mind.Prelude.Show.{show}
use rover_mind.Prelude.Int.{pos}

-- What `urlparse` gives.
pub record Url : Type 0 where
  pub scheme : String
  pub hostname : Option String
  pub port : Option ℕ

-- The calls on the socket and on its stream; the last two close them.
pub record Sockets (W : Type 0) : Type 0 where
  pub connect : String × ℕ → Io W Unit
  pub set_timeout : Io W Unit
  pub make_stream : Io W Unit
  pub close_stream : Io W Unit
  pub close_socket : Io W Unit

-- The address, where the host and the port are there and are neither empty nor 0.
unfoldable pub address_of : String → Option String → Option ℕ → Option (String × ℕ)
address_of scheme none port = none
address_of scheme (some host) none = none
address_of scheme (some host) (some port) =
    if not (str_eq scheme "tcp") || (str_eq host "" || (port == 0)) then none else some (host, port)

-- `__init__`, with `urlparse` and `repr` as parameters.
unfoldable pub client_address :
    (String → Result Url) → (String → String) → String → Result (String × ℕ)
unfolding address_of
client_address urlparse repr url =
    mapped
      (λ parsed. elim (address_of parsed.scheme parsed.hostname parsed.port) [
        | none ↦
            err (exception "ValueError" (concat ("expected tcp://host:port, got " ∷ repr url ∷ [])))
        | some at ↦ ok at
      ])
      (urlparse url)

module _ {W : Type 0} (is_os_error : String → Bool) (sockets : Sockets W) where
  -- The `try` of `__enter__`, on what connecting gave: a refusal and a timeout are OS errors.
  abbrev pub reachable : String × ℕ → Result Unit × W → Result Unit × W
  reachable (host, port) (ok done, w) = (ok tt, w)
  reachable (host, port) (err e, w) =
      if is_os_error e.kind
      then (
        err (
            exception "BridgeUnreachable" (
              concat (
                "could not connect to bridge at tcp://"
                ∷ host
                ∷ ":"
                ∷ show (pos port)
                ∷ ": "
                ∷ e.text
                ∷ []))),
        w,
      )
      else (err e, w)

  -- `__enter__`
  unfoldable pub enter : String × ℕ → Io W Unit
  enter at =
      (λ w. reachable at (sockets.connect at w)) >> (sockets.set_timeout >> sockets.make_stream)

  -- `try: ... except OSError: pass`
  abbrev pub forgiven : Result Unit × W → Result Unit × W
  forgiven (ok done, w) = (ok tt, w)
  forgiven (err e, w) = if is_os_error e.kind then (ok tt, w) else (err e, w)

  -- `__exit__`, by whether there are a stream and a socket.
  unfoldable pub leave : Bool → Bool → Io W Unit
  leave false false w = (ok tt, w)
  leave true false w = forgiven (sockets.close_stream w)
  leave false true w = forgiven (sockets.close_socket w)
  leave true true w =
      ((λ v. forgiven (sockets.close_stream v)) >> (λ v. forgiven (sockets.close_socket v))) w

  -- `with BridgeClient(url) as bridge: body`
  unfoldable pub with_client :
      {A : Type 0} → (String → Result Url) → (String → String) → String → Io W A → Io W A
  unfolding client_address enter leave
  with_client urlparse repr url body = lift (client_address urlparse repr url) >>= λ at.
      enter at >> finally_io body (leave true true)
