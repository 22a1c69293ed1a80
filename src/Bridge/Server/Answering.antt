-- ===== src/Bridge/Server/Answering.antt =====
-- The replies of the bridge server (_handle of bridge/bridge_server.py).
use rover_mind.Prelude.{
  ℕ, ◌+◌, String, ◌≡◌, refl, ap, subst, ◌⊎◌, inl, inr, true, false, Option, none, some, Bool-cases,
  if◌then◌else◌, concat, [], ◌∷◌,
}
use rover_mind.Prelude.Io.{Exception, Result, ok, err, ok-inj, err-inj, exception, is_caught}
use rover_mind.Prelude.Text.{Unicode}
use rover_mind.Float.{Float}
use rover_mind.Bridge.Values.{
  Value, null, boolean, text, object, Members, no_members, Interpreter, get, get_or, set,
  members_of, is_hashable, is_truthy,
}
use rover_mind.Bridge.Server.{
  Devices, Server, Handled, done, bridge_error, raised, error_object, reply_of, ok_reply,
  error_reply, timed_reply, call_handler, with_timing, handler_of, dispatch_to, malformed_request,
  handle_members, handle_id, handle,
}

module _ {R : Type 0} where
  -- The value is a reply with the id: a dict that says ok and has a result, or says not ok and has an
  -- error with a type and a message.
  abbrev pub IsReply : Value R → Value R → Type 0
  IsReply id v =
      (o : Members R) × (v ≡ object o)
      × (get "id" o ≡ some id)
      × (((get "ok" o ≡ some (boolean true))
            × ((result : Value R) × (get "result" o ≡ some result)))
          ⊎ ((get "ok" o ≡ some (boolean false))
              × ((type : Value R) × (message : Value R) × (get "error" o
                    ≡ some (error_object type message)))))

  -- The id that the reply to a request has: the request's, or null where it has none.
  abbrev pub reply_id : Value R → Value R
  reply_id request = elim (members_of request) [ none ↦ null | some o ↦ get_or "id" null o ]

  -- The request is a dict with an id whose method cannot be looked up.
  abbrev pub IsUnhashable : Value R → Type 0
  IsUnhashable request =
      (o : Members R) × (id : Value R) × (request ≡ object o)
      × (get "id" o ≡ some id)
      × (is_hashable (get_or "method" null o) ≡ false)

  missing-hashable : (o : Members R) → get "id" o ≡ none → ¬ IsUnhashable (object o)
  missing-hashable o e (o', id, same, found, h) = let equal : o ≡ o' = cc in absurd (cc)

  found-hashable :
      (o : Members R) → is_hashable (get_or "method" null o) ≡ true → ¬ IsUnhashable (object o)
  found-hashable o e (o', id, same, found, h) =
      let equal : o' ≡ o = cc in
      let wrong = subst (λ (q : Members R). is_hashable (get_or "method" null q) ≡ false) equal h in
      absurd (cc)

  reply_id-missing : (o : Members R) → get "id" o ≡ none → reply_id (object o) ≡ null
  reply_id-missing o e = λ i. elim (e i) [ none ↦ null | some v ↦ v ]

  reply_id-found : (o : Members R) (id : Value R) → get "id" o ≡ some id → reply_id (object o) ≡ id
  reply_id-found o id e = λ i. elim (e i) [ none ↦ null | some v ↦ v ]

  reply_of-IsReply :
      (id timing : Value R) (h : Handled R) (reply : Members R)
      → reply_of id h ≡ ok reply
      → IsReply id (object (set "timing" timing reply))
  unfolding get set
  reply_of-IsReply id timing (done v) reply e =
      subst (λ o. IsReply id (object (set "timing" timing o))) (ok-inj (ok_reply id v) reply e)
        (_, refl, refl, inl (refl, (v, refl)))
  reply_of-IsReply id timing (bridge_error type message) reply e =
      subst (λ o. IsReply id (object (set "timing" timing o)))
        (ok-inj (error_reply id (text type) (text message)) reply e)
        (_, refl, refl, inr (refl, (text type, text message, refl)))
  reply_of-IsReply id timing (raised exc) reply e = elim (Bool-cases (is_caught exc)) [
    | inl caught ↦
        subst (λ o. IsReply id (object (set "timing" timing o)))
          (ok-inj
            (error_reply id (text "internal_error")
              (text (concat (exc.kind ∷ ": " ∷ exc.text ∷ []))))
            reply (rw caught at e))
          (_, refl, refl, inr (refl, (text "internal_error", _, refl)))
    | inr other ↦ let wrong = rw other at e in absurd (cc)
  ]

  -- Only an exception that `except Exception` does not catch has no reply.
  pub reply_of-uncaught :
      (id : Value R) (h : Handled R) (e : Exception)
      → reply_of id h ≡ err e
      → (h ≡ raised e) × (is_caught e ≡ false)
  reply_of-uncaught id (done v) e h = absurd (cc)
  reply_of-uncaught id (bridge_error type message) e h = absurd (cc)
  reply_of-uncaught id (raised exc) e h = elim (Bool-cases (is_caught exc)) [
    | inl caught ↦ let wrong = rw caught at h in absurd (cc)
    | inr other ↦
        let same : exc ≡ e = err-inj {A = Members R} exc e (rw other at h) in
        (ap raised same, subst (λ x. is_caught x ≡ false) same other)
  ]

module _ (u : Unicode) {R W Image : Type 0} ⦃f : Float R⦄ (py : Interpreter R) (clock : ℕ → R)
    (devices : Devices R W Image) where
  -- The call returns a reply with the id.
  abbrev Replies : Value R → Result (Value R) × Server R W → Type 0
  Replies id r = (v : Value R) × (r.0 ≡ ok v) × IsReply id v

  timed_reply-Replies :
      (id : Value R) (start : R) (h : Handled R) (s : Server R W) (r : Result (Members R))
      → reply_of id h ≡ r
      → Replies id (timed_reply u py clock devices start r s)
        ⊎ ((e : Exception) × (h ≡ raised e)
            × (is_caught e ≡ false)
            × ((timed_reply u py clock devices start r s).0 ≡ err e))
  timed_reply-Replies id start h s (ok reply) e = inl (_, refl, reply_of-IsReply id _ h reply e)
  timed_reply-Replies id start h s (err x) e =
      let (same, uncaught) = reply_of-uncaught id h x e in inr (x, same, uncaught, refl)

  -- The arguments of the request, and the handler's run on them.
  abbrev keywords_of : Members R → Value R
  keywords_of o =
      let args = get_or "args" (object no_members) o in
      if is_truthy args then args else object no_members

  abbrev handled :
      (Members R → Server R W → Handled R × Server R W)
      → Value R
      → Server R W
      → Handled R × Server R W
  handled handler args s =
      call_handler u py clock devices handler args
        (record s { ticks = s.ticks + 1; pending_timing = no_members })

  -- The handler of the request raises the exception, and `except Exception` does not catch it.
  abbrev pub IsUncaught : Value R → Server R W → Exception → Type 0
  IsUncaught request s e =
      (o : Members R) × (handler : Members R → Server R W → Handled R × Server R W) × (request
        ≡ object o)
      × (handler_of u py clock devices (get_or "method" null o) ≡ some handler)
      × ((handled handler (keywords_of o) s).0 ≡ raised e)
      × (is_caught e ≡ false)

  abbrev pub Answered : Value R → Server R W → Result (Value R) × Server R W → Type 0
  Answered request s r =
      (Replies (reply_id request) r × ¬ IsUnhashable request)
      ⊎ ((IsUnhashable request × ((t : String) × (r.0 ≡ err (exception "TypeError" t))) × (r.1 ≡ s))
          ⊎ ((e : Exception) × IsUncaught request s e × (r.0 ≡ err e)))

  dispatch_to-Answered :
      (id : Value R) (o : Members R)
      (found : Option (Members R → Server R W → Handled R × Server R W)) (s : Server R W)
      → reply_id (object o) ≡ id
      → is_hashable (get_or "method" null o) ≡ true
      → handler_of u py clock devices (get_or "method" null o) ≡ found
      → Answered
          (object o)
          s
          (dispatch_to u py clock devices id (get_or "method" null o) (keywords_of o) found s)
  unfolding dispatch_to get with_timing
  dispatch_to-Answered id o none s same hashable e = rw same (
      inl (
        (_, refl, (_, refl, refl, inr (refl, (text "unknown_method", _, refl)))),
        found-hashable o hashable,
      ))
  dispatch_to-Answered id o (some handler) s same hashable e =
      let (h, t) = handled handler (keywords_of o) s in
      elim (timed_reply-Replies id (clock s.ticks) h t (reply_of id h) refl) [
        | inl replies ↦ rw same (inl (replies, found-hashable o hashable))
        | inr (x, raises, uncaught, left) ↦
            inr (inr (x, (o, handler, refl, e, raises, uncaught), left))
      ]

  malformed-Answered :
      (request : Value R) (s : Server R W)
      → reply_id request ≡ null
      → ¬ IsUnhashable request
      → Answered request s (malformed_request u py clock devices request s)
  unfolding malformed_request get
  malformed-Answered request s e hashable =
      inl
        ((_, refl, (_, refl, rw e refl, inr (refl, (text "malformed_request", _, refl)))), hashable)

  object-Answered :
      (o : Members R) (s : Server R W) (found : Option (Value R))
      → get "id" o ≡ found
      → Answered (object o) s (handle_id u py clock devices (object o) o found s)
  unfolding handle_id handle_members
  object-Answered o s none e =
      malformed-Answered (object o) s (reply_id-missing o e) (missing-hashable o e)
  object-Answered o s (some id) e = elim (Bool-cases (is_hashable (get_or "method" null o))) [
    | inl h ↦ rw h (
        dispatch_to-Answered id o (handler_of u py clock devices (get_or "method" null o)) s
          (reply_id-found o id e) h refl)
    | inr h ↦ rw h (inr (inl ((o, id, refl, e, h), (_, refl), refl)))
  ]

  pub handle-Answered :
      (request : Value R) (s : Server R W)
      → Answered request s (handle u py clock devices request s)
  unfolding handle
  handle-Answered (Value.object o) s = object-Answered o s (get "id" o) refl
  handle-Answered (Value.null) s =
      malformed-Answered null s refl (λ (o, id, e, found, h). absurd (cc))
  handle-Answered (Value.boolean b) s =
      malformed-Answered (boolean b) s refl (λ (o, id, e, found, h). absurd (cc))
  handle-Answered (Value.int n) s =
      malformed-Answered (Value.int n) s refl (λ (o, id, e, found, h). absurd (cc))
  handle-Answered (Value.float x) s =
      malformed-Answered (Value.float x) s refl (λ (o, id, e, found, h). absurd (cc))
  handle-Answered (Value.text t) s =
      malformed-Answered (text t) s refl (λ (o, id, e, found, h). absurd (cc))
  handle-Answered (Value.array xs) s =
      malformed-Answered (Value.array xs) s refl (λ (o, id, e, found, h). absurd (cc))
