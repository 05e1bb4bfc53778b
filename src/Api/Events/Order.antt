-- ===== src/Api/Events/Order.antt =====
-- What a client of the event stream gets to see.
use lukscrypt.Prelude.{
  Bool, true, false, List, [], ◌∷◌, ◌++◌, ◌≡◌, refl, sym, ap, subst, ◌∙◌, inl, inr, arith,
  append_assoc, append-nil, if◌then◌else◌, all,
}
use lukscrypt.Sys.{ProgressEvent}
use lukscrypt.Api.Events.Picked.{IsPicked, none_left}
use lukscrypt.Api.Events.{
  Sending, progress, terminal, Reader, absent, streaming, draining, returned, Stream, Move, creates,
  gives_up, connects, receives, leaves, has_room, send, connect, receive_from, step, run, start,
}
use lukscrypt.Api.Events.Phase.{creation, Phase, Phase-same, send-Phase}

-- The client stays, and no terminal send is given up.
abbrev pub is_patient : Move → Bool
is_patient gives_up = false
is_patient leaves = false
is_patient _ = true

module _ (ps : List ProgressEvent) (e : ProgressEvent) where
  -- A client that stays: its handler returns only at the end.
  abbrev Attends : Reader → Stream → Type 0
  Attends draining s = ⊥
  Attends returned s = (s.queue ≡ []) × (s.closed ≡ true)
  Attends _ s = Unit

  record IsOrdered (s : Stream) : Type 0 where
    phase : Phase ps e s
    attends : Attends s.reader s

  send_reader : (todo : List Sending) (s : Stream) → (send todo s).reader ≡ s.reader
  unfolding send has_room
  send_reader [] s = refl
  send_reader (progress r ∷ todo) s = ground arith
  send_reader (terminal r ∷ todo) s = ground arith

  send-Attends : (r : Reader) (s : Stream) → Phase ps e s → Attends r s → Attends r (send s.todo s)
  unfolding send
  send-Attends returned s (inl b) (e', closed) = absurd (let k = b.not_closed in cc)
  send-Attends returned s (inr a) (e', closed) =
      subst (λ t. Attends returned (send t s)) (sym a.none_to_send) (e', refl)
  send-Attends draining s p h = elim h [ ]
  send-Attends absent s p h = tt
  send-Attends streaming s p h = tt

  send-IsOrdered : (s : Stream) → IsOrdered s → IsOrdered (send s.todo s)
  unfolding send
  send-IsOrdered s o = record {
    phase = send-Phase ps e s o.phase;
    attends = rw (send_reader s.todo s) (send-Attends s.reader s o.phase o.attends);
  }

  IsOrdered-if :
      (b : Bool) (s s' : Stream)
      → (b ≡ true → IsOrdered s)
      → (b ≡ false → IsOrdered s')
      → IsOrdered (if b then s else s')
  IsOrdered-if true s s' h k = h refl
  IsOrdered-if false s s' h k = k refl

  connect-IsOrdered :
      (r : Reader) (s : Stream) → s.reader ≡ r → IsOrdered s → IsOrdered (connect r s)
  unfolding connect
  connect-IsOrdered absent s same o =
      IsOrdered-if s.listed _ _
        (λ _. record { phase = Phase-same ps e refl refl refl o.phase; attends = tt }) λ _. o
  connect-IsOrdered streaming s same o = o
  connect-IsOrdered draining s same o = o
  connect-IsOrdered returned s same o = o

  receive-IsOrdered :
      (r : Reader) (q : List ProgressEvent) (s : Stream)
      → s.reader ≡ r
      → s.queue ≡ q
      → IsOrdered s
      → IsOrdered (receive_from r q s)
  unfolding receive_from
  receive-IsOrdered streaming (ev ∷ q) s same e' o = record {
    phase =
        Phase-same ps e refl
          (append_assoc s.delivered (ev ∷ []) q ∙ ap (λ xs. s.delivered ++ xs) (sym e')) refl
          o.phase;
    attends = rw same tt;
  }
  receive-IsOrdered streaming [] s same e' o =
      IsOrdered-if s.closed _ _
        (λ shut. record { phase = Phase-same ps e refl refl refl o.phase; attends = (e', shut) })
        λ _. o
  receive-IsOrdered draining q s same e' o = absurd (subst (λ r. Attends r s) same o.attends)
  receive-IsOrdered absent q s same e' o = o
  receive-IsOrdered returned q s same e' o = o

  step-IsOrdered :
      (m : Move) (s : Stream) → is_patient m ≡ true → IsOrdered s → IsOrdered (step m s)
  unfolding step
  step-IsOrdered creates s h o = send-IsOrdered s o
  step-IsOrdered connects s h o = connect-IsOrdered s.reader s refl o
  step-IsOrdered receives s h o = receive-IsOrdered s.reader s.queue s refl refl o
  step-IsOrdered gives_up s h o = cc
  step-IsOrdered leaves s h o = cc

  run-IsOrdered :
      (ms : List Move) (s : Stream) → all is_patient ms ≡ true → IsOrdered s → IsOrdered (run ms s)
  unfolding run
  run-IsOrdered [] s h o = o
  run-IsOrdered (m ∷ ms) s h o =
      run-IsOrdered ms (step m s) (ground (arith, h)) (step-IsOrdered m s (ground (arith, h)) o)

  start-IsOrdered : IsOrdered (start (creation ps e))
  unfolding start
  start-IsOrdered = record {
    phase = inl (record {
      sent = [];
      rest = ps;
      all_sent = refl;
      to_send = refl;
      picked = none_left;
      not_closed = refl;
    });
    attends = tt;
  }

  delivered_lem :
      (s : Stream)
      → IsOrdered s
      → s.reader ≡ returned
      → (kept : List ProgressEvent) × IsPicked kept ps × (s.delivered ≡ kept ++ (e ∷ []))
  delivered_lem s o same =
      let (drained, shut) = subst (λ r. Attends r s) same o.attends in
      elim o.phase [
        | inl b ↦ let k = b.not_closed in cc
        | inr a ↦ (
          a.kept,
          a.picked,
          sym (append-nil s.delivered) ∙ ap (λ q. s.delivered ++ q) (sym drained) ∙ a.ends,
        )
      ]

-- A creation sends progress events and then a terminal one. After any moves from the start in which
-- the client does not leave and the terminal send is not given up, if the handler has returned, then
-- its client got some of the progress events, in their order, and then the terminal event.
pub run-delivers :
    (ps : List ProgressEvent) (e : ProgressEvent) (ms : List Move)
    → all is_patient ms ≡ true
    → (run ms (start (creation ps e))).reader ≡ returned
    → (kept : List ProgressEvent) × IsPicked kept ps
      × ((run ms (start (creation ps e))).delivered ≡ kept ++ (e ∷ []))
run-delivers ps e ms patient over =
    delivered_lem ps e (run ms (start (creation ps e)))
      (run-IsOrdered ps e ms (start (creation ps e)) patient (start-IsOrdered ps e)) over
