-- ===== src/Prelude/Io/Finally.antt =====
-- What holds after a `finally` and after an ignored call, whatever was raised before.
use mathlib.Core.Path.{◌≡◌, sym, subst}
use rover_mind.Prelude.Io.{
  Result, ok, err, Io, pure, ◌>>=◌, ◌>>◌, bind-ok, finally_io, after_all, passed_over, ignored,
  is_caught, continued,
}
use rover_mind.Prelude.Tests.{Bool-cases}
use mathlib.Core.Logic.{inl, inr}

-- However the call ends, it keeps the property.
abbrev pub Keeps : {W A : Type 0} → (W → Type 0) → Io W A → Type 0
Keeps Q m = (w : _) → Q w → Q (m w).1

module _ {W : Type 0} (Q : W → Type 0) where
  after_finally : {A : Type 0} (r : Result A) (q : Result Unit × W) → Q q.1 → Q (after_all r q).1
  after_finally r (ok done, w) h = h
  after_finally r (err e, w) h = h

  -- Where the call and the `finally` keep it.
  pub finally_io_keeps_after :
      {A : Type 0} (m : Io W A) (after : Io W Unit) (w : W)
      → Q (m w).1
      → ((v : W) → Q v → Q (after v).1)
      → Q (finally_io m after w).1
  finally_io_keeps_after m after w h keep = after_finally (m w).0 (after (m w).1) (keep (m w).1 h)

  pub finally_io_keeps :
      {A : Type 0} (m : Io W A) (after : Io W Unit)
      → ((w : W) → Q (after w).1)
      → (w : W) → Q (finally_io m after w).1
  finally_io_keeps m after h w = after_finally (m w).0 (after (m w).1) (h (m w).1)

  after_ignored : (r : Result Unit × W) → Q r.1 → Q (passed_over r).1
  after_ignored (ok done, w) h = h
  after_ignored (err e, w) h = elim (Bool-cases (is_caught e)) [
    | inl caught ↦ rw caught h
    | inr other ↦ rw other h
  ]

  pub ignored_keeps : (m : Io W Unit) (w : W) → Q (m w).1 → Q (ignored m w).1
  ignored_keeps m w h = after_ignored (m w) h

  after_bind :
      {A B : Type 0} (k : A → Io W B) (r : Result A × W)
      → Q r.1
      → ((a : A) (w : W) → Q w → Q (k a w).1)
      → Q (continued k r).1
  after_bind k (ok a, w) h keep = keep a w h
  after_bind k (err e, w) h keep = h

  pub bind_keeps :
      {A B : Type 0} (m : Io W A) (k : A → Io W B) (w : W)
      → Q (m w).1
      → ((a : A) (w : W) → Q w → Q (k a w).1)
      → Q ((m >>= k) w).1
  bind_keeps m k w h keep = after_bind k (m w) h keep

  -- A call that establishes the property, even if it raises, and two more that keep it.
  pub ignored_first_keeps :
      (first second last : Io W Unit)
      → ((w : W) → Q w → Q (second w).1)
      → ((w : W) → Q w → Q (last w).1)
      → (w : W) → Q (first w).1
      → Q ((ignored first >> (ignored second >> last)) w).1
  ignored_first_keeps first second last keep_second keep_last w h =
      bind_keeps (ignored first) (λ x. ignored second >> last) w (ignored_keeps first w h)
        (λ x v q.
          bind_keeps (ignored second) (λ y. last) v (ignored_keeps second v (keep_second v q))
            (λ y u k. keep_last u k))

  -- A process that has begun, runs and stops.
  pub process_keeps :
      {A : Type 0} (begin run stop : Io W Unit) (code : A) (w up : W)
      → begin w ≡ (ok tt, up)
      → Q (stop (run up).1).1
      → Q ((begin >> (finally_io run stop >>= λ done. pure code)) w).1
  process_keeps begin run stop code w up begun h =
      let rest = finally_io run stop >>= λ done. pure code in
      subst (λ r. Q r.1) (sym (bind-ok begin (λ x. rest) w tt up begun))
        (bind_keeps (finally_io run stop) (λ done. pure code) up
          (after_finally (run up).0 (stop (run up).1) h) (λ done v h. h))
