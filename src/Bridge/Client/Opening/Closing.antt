-- ===== src/Bridge/Client/Opening/Closing.antt =====
-- What a `with` block of the client leaves (bridge/client.py).
use rover_mind.Prelude.{ℕ, String, ◌≡◌, ap, ◌∙◌, sym, subst, Bool, true, Bool-cases, inl, inr}
use rover_mind.Prelude.Io.{
  Io, Result, ok, err, lift, ◌>>◌, finally_io, after_all, continued, bind-ok, bind-returns,
}
use rover_mind.Prelude.Io.Finally.{Keeps, bind_keeps, finally_io_keeps, finally_io_keeps_after}
use rover_mind.Bridge.Client.Opening.{
  Url, Sockets, client_address, reachable, enter, forgiven, leave, with_client,
}

after_all-ok :
    {W A : Type 0} (r : Result A) (q : Result Unit × W) (a : A)
    → (after_all r q).0 ≡ ok a
    → r ≡ ok a
after_all-ok r (ok done, w) a h = h
after_all-ok r (err e, w) a h = absurd (cc)

module _ {W : Type 0} (is_os_error : String → Bool) (sockets : Sockets W)
    (urlparse : String → Result Url) (repr : String → String) (url : String) where
  -- Where the block returns, its body did.
  pub with_client_returns :
      {A : Type 0} (body : Io W A) (w : W) (a : A)
      → (with_client is_os_error sockets urlparse repr url body w).0 ≡ ok a
      → (v : W) × ((body v).0 ≡ ok a)
  unfolding with_client
  with_client_returns body w a h =
      let (at, parsed, rest, same) =
        bind-returns (lift (client_address urlparse repr url))
          (λ at.
            enter is_os_error sockets at >> finally_io body (leave is_os_error sockets true true))
          w a h in
      let (x, entered, done, same') =
        bind-returns (enter is_os_error sockets at)
          (λ x. finally_io body (leave is_os_error sockets true true)) w a rest in
      let v = (enter is_os_error sockets at w).1 in
      (v, after_all-ok (body v).0 (leave is_os_error sockets true true (body v).1) a done)

module _ {W : Type 0} (is_os_error : String → Bool) (sockets : Sockets W)
    (Closed : W → Type 0) where
  pub forgiven_keeps :
      (r : Result Unit × W) → Closed r.1 → Closed (forgiven is_os_error sockets r).1
  forgiven_keeps (ok done, w) h = h
  forgiven_keeps (err e, w) h = elim (Bool-cases (is_os_error e.kind)) [
    | inl os ↦ rw os h
    | inr other ↦ rw other h
  ]

  -- A call that raises OS errors only.
  abbrev pub RaisesOs : Result Unit × W → Type 0
  RaisesOs (ok done, w) = Unit
  RaisesOs (err e, w) = is_os_error e.kind ≡ true

  after_forgiven :
      (r : Result Unit × W) (k : Io W Unit)
      → RaisesOs r
      → ((w : W) → Closed (k w).1)
      → Closed (continued (λ x. k) (forgiven is_os_error sockets r)).1
  after_forgiven (ok done, w) k os h = h w
  after_forgiven (err e, w) k os h = rw os (h w)

  leave_closes :
      ((w : W) → RaisesOs (sockets.close_stream w))
      → ((w : W) → Closed (sockets.close_socket w).1)
      → (w : W) → Closed (leave is_os_error sockets true true w).1
  unfolding leave
  leave_closes os closes w =
      after_forgiven (sockets.close_stream w)
        (λ v. forgiven is_os_error sockets (sockets.close_socket v)) (os w)
        (λ v. forgiven_keeps (sockets.close_socket v) (closes v))

  -- Where the url is good and the client has connected, its socket is closed at the end of the block,
  -- whatever the block raises, given that closing the stream raises OS errors only.
  pub with_client_closes :
      (urlparse : String → Result Url) (repr : String → String) (url : String)
      → ((w : W) → RaisesOs (sockets.close_stream w))
      → ((w : W) → Closed (sockets.close_socket w).1)
      → {A : Type 0} (body : Io W A) (at : String × ℕ) (w v : W)
      → client_address urlparse repr url ≡ ok at
      → enter is_os_error sockets at w ≡ (ok tt, v)
      → Closed (with_client is_os_error sockets urlparse repr url body w).1
  unfolding with_client
  with_client_closes urlparse repr url os closes body at w v good entered =
      let inside = finally_io body (leave is_os_error sockets true true) in
      subst (λ r. Closed r.1)
        (sym (
          bind-ok (lift (client_address urlparse repr url))
            (λ x. enter is_os_error sockets x >> inside) w at w (ap (λ r. (r, w)) good)
          ∙ bind-ok (enter is_os_error sockets at) (λ x. inside) w tt v entered))
        (finally_io_keeps Closed body (leave is_os_error sockets true true) (leave_closes os closes)
          v)

  reachable_keeps :
      (at : String × ℕ) (r : Result Unit × W)
      → Closed r.1
      → Closed (reachable is_os_error sockets at r).1
  reachable_keeps (host, port) (ok done, w) h = h
  reachable_keeps (host, port) (err e, w) h = elim (Bool-cases (is_os_error e.kind)) [
    | inl os ↦ rw os h
    | inr other ↦ rw other h
  ]

  -- A block keeps a property of the world that its body and the calls on the socket keep.
  pub with_client-Keeps :
      {A : Type 0} (urlparse : String → Result Url) (repr : String → String) (url : String)
      (body : Io W A)
      → ((at : String × ℕ) → Keeps Closed (sockets.connect at))
      → Keeps Closed sockets.set_timeout
      → Keeps Closed sockets.make_stream
      → Keeps Closed sockets.close_stream
      → Keeps Closed sockets.close_socket
      → Keeps Closed body
      → Keeps Closed (with_client is_os_error sockets urlparse repr url body)
  unfolding with_client enter leave
  with_client-Keeps urlparse repr url body connects times_out streams ends_stream ends_socket runs w
        h =
      bind_keeps Closed (lift (client_address urlparse repr url))
        (λ at.
          enter is_os_error sockets at >> finally_io body (leave is_os_error sockets true true))
        w h
        (λ at v q.
          bind_keeps Closed (enter is_os_error sockets at)
            (λ x. finally_io body (leave is_os_error sockets true true)) v
            (bind_keeps Closed (λ w. reachable is_os_error sockets at (sockets.connect at w))
              (λ x. sockets.set_timeout >> sockets.make_stream) v
              (reachable_keeps at (sockets.connect at v) (connects at v q))
              (λ x y k.
                bind_keeps Closed sockets.set_timeout (λ x. sockets.make_stream) y (times_out y k)
                  (λ x z k. streams z k)))
            (λ x y k.
              finally_io_keeps_after Closed body (leave is_os_error sockets true true) y (runs y k)
                (λ z k.
                  bind_keeps Closed (λ v. forgiven is_os_error sockets (sockets.close_stream v))
                    (λ x v. forgiven is_os_error sockets (sockets.close_socket v)) z
                    (forgiven_keeps (sockets.close_stream z) (ends_stream z k))
                    (λ x t k. forgiven_keeps (sockets.close_socket t) (ends_socket t k)))))
