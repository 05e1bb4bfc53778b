-- ===== src/Api/Events/Ending.antt =====
-- The stream ends: neither the creation nor the handler waits for ever.
use lukscrypt.Prelude.{
  ℕ, zero, suc, ◌+◌, ◌*◌, ◌≤◌, ◌<◌, Bool, true, false, List, [], ◌∷◌, ◌++◌, ◌≡◌, refl, ◌∙◌, ◌⊎◌,
  inl, inr, arith, length, length-append, is_empty, ltb, Bool-cases,
}
use lukscrypt.Sys.{ProgressEvent}
use lukscrypt.Api.Events.{
  capacity, Sending, progress, terminal, Reader, absent, streaming, draining, returned, Stream,
  Move, creates, gives_up, connects, receives, leaves, has_room, send, give_up, connect,
  receive_from, leave, step, run, start,
}

-- A handler that receives, for its client or to empty the channel.
abbrev pub is_active : Reader → Bool
is_active streaming = true
is_active draining = true
is_active _ = false

-- How far the end is.
abbrev pub work : Stream → ℕ
work s = 2 * length s.todo + length s.queue

-- The creation and the handler in turn.
abbrev pub turns : ℕ → List Move
turns zero = []
turns (suc n) = creates ∷ receives ∷ turns n

abbrev IsNearer : ℕ → Stream → Type 0
IsNearer n s = (s.reader ≡ returned) ⊎ ((is_active s.reader ≡ true) × (work s < n))

receive_from_lem :
    (r : Reader) (q : List ProgressEvent) (s : Stream) (n : ℕ)
    → s.reader ≡ r
    → is_active r ≡ true
    → (is_empty q ≡ true → s.closed ≡ true)
    → 2 * length s.todo + length q ≤ n
    → IsNearer n (receive_from r q s)
unfolding receive_from
receive_from_lem streaming (e ∷ q) s n same active ends w = inr (rw same refl, omega (arith, w))
receive_from_lem streaming [] s n same active ends w = rw (ends refl) (inl refl)
receive_from_lem draining (e ∷ q) s n same active ends w = inr (rw same refl, omega (arith, w))
receive_from_lem draining [] s n same active ends w = rw (ends refl) (inl refl)
receive_from_lem absent q s n same active ends w = cc
receive_from_lem returned q s n same active ends w = cc

-- What a move of the creation leaves: no more work, and something to receive or a closed channel.
abbrev IsPushed : ℕ → Stream → Stream → Type 0
IsPushed n s s' =
    (s'.reader ≡ s.reader) × (work s' ≤ n) × (is_empty s'.queue ≡ true → s'.closed ≡ true)

append_nonempty : (q : List ProgressEvent) (e : ProgressEvent) → is_empty (q ++ (e ∷ [])) ≡ true → ⊥
append_nonempty [] e h = cc
append_nonempty (x ∷ q) e h = cc

put_lem :
    (todo : List Sending) (e : ProgressEvent) (s : Stream) (n : ℕ)
    → 2 * length todo + length s.queue + 1 ≤ n
    → IsPushed n s (record s { todo = todo; queue = s.queue ++ (e ∷ []) })
put_lem todo e s n w = (
  refl,
  omega (arith, w, length-append s.queue (e ∷ [])),
  λ h. absurd (append_nonempty s.queue e h),
)

full_lem : (q : List ProgressEvent) → ltb (length q) capacity ≡ false → is_empty q ≡ false
full_lem [] h = cc
full_lem (e ∷ q) h = refl

send_lem : (todo : List Sending) (s : Stream) → s.todo ≡ todo → IsPushed (work s) s (send todo s)
unfolding send has_room
send_lem [] s e = (refl, omega arith, λ h. refl)
send_lem (progress ev ∷ todo) s e = elim (Bool-cases (ltb (length s.queue) capacity)) [
  | inl room ↦ rw room (put_lem todo ev s (work s) (rw e (omega arith)))
  | inr full ↦ rw full (refl, rw e (omega arith), λ h. let k = full_lem s.queue full in cc)
]
send_lem (terminal ev ∷ todo) s e = elim (Bool-cases (ltb (length s.queue) capacity)) [
  | inl room ↦ rw room (put_lem todo ev s (work s) (rw e (omega arith)))
  | inr full ↦ rw full (refl, omega arith, λ h. let k = full_lem s.queue full in cc)
]

turns_returned : (n : ℕ) (s : Stream) → s.reader ≡ returned → (run (turns n) s).reader ≡ returned
unfolding run step receive_from
turns_returned zero s e = e
turns_returned (suc n) s e =
    let same : (send s.todo s).reader ≡ returned = (send_lem s.todo s refl).0 ∙ e in
    turns_returned n _ (rw same same)

turns-end :
    (n : ℕ) (s : Stream)
    → is_active s.reader ≡ true
    → work s < n
    → (run (turns n) s).reader ≡ returned
unfolding run step
turns-end zero s active w = absurd (omega (arith, w))
turns-end (suc n) s active w =
    let s' = send s.todo s in
    let (same, less, ends) = send_lem s.todo s refl in
    elim (receive_from_lem s'.reader s'.queue s' (work s) refl (rw same active) ends
      (omega (arith, less))) [
        | inl over ↦ turns_returned n (receive_from s'.reader s'.queue s') over
        | inr (active', nearer) ↦
            turns-end n (receive_from s'.reader s'.queue s') active' (omega (arith, w, nearer))
      ]

give_up_lem : (todo : List Sending) (s : Stream) → s.todo ≡ todo → work (give_up todo s) ≤ work s
unfolding give_up
give_up_lem [] s e = omega arith
give_up_lem (progress ev ∷ todo) s e = omega arith
give_up_lem (terminal ev ∷ todo) s e = rw e (omega arith)

connect_lem : (r : Reader) (s : Stream) → work (connect r s) ≤ work s
unfolding connect
connect_lem absent s = elim (Bool-cases s.listed) [
  | inl listed ↦ rw listed (omega arith)
  | inr gone ↦ rw gone (omega arith)
]
connect_lem streaming s = omega arith
connect_lem draining s = omega arith
connect_lem returned s = omega arith

receive_work :
    (r : Reader) (q : List ProgressEvent) (s : Stream)
    → s.queue ≡ q
    → work (receive_from r q s) ≤ work s
unfolding receive_from
receive_work streaming (ev ∷ q) s e = rw e (omega arith)
receive_work draining (ev ∷ q) s e = rw e (omega arith)
receive_work streaming [] s e = elim (Bool-cases s.closed) [
  | inl shut ↦ rw shut (omega arith)
  | inr open' ↦ rw open' (omega arith)
]
receive_work draining [] s e = elim (Bool-cases s.closed) [
  | inl shut ↦ rw shut (omega arith)
  | inr open' ↦ rw open' (omega arith)
]
receive_work absent q s e = omega arith
receive_work returned q s e = omega arith

leave_lem : (r : Reader) (s : Stream) → work (leave r s) ≤ work s
unfolding leave
leave_lem streaming s = omega arith
leave_lem draining s = omega arith
leave_lem absent s = omega arith
leave_lem returned s = omega arith

start_work : (todo : List Sending) → work (start todo) ≡ 2 * length todo
unfolding start
start_work todo = omega arith

-- No move adds work.
work-step : (m : Move) (s : Stream) → work (step m s) ≤ work s
unfolding step
work-step creates s = (send_lem s.todo s refl).1
work-step gives_up s = give_up_lem s.todo s refl
work-step connects s = connect_lem s.reader s
work-step receives s = receive_work s.reader s.queue s refl
work-step leaves s = leave_lem s.reader s

work-run : (ms : List Move) (s : Stream) → work (run ms s) ≤ work s
unfolding run
work-run [] s = omega arith
work-run (m ∷ ms) s = omega (arith, work-step m s, work-run ms (step m s))

-- After any moves from the start, if a handler receives the events, for its client or to empty the
-- channel after the client has left, then it returns once the creation and the handler have moved in
-- turn for twice the sends of the creation and one more time.
pub run-ends :
    (todo : List Sending) (ms : List Move)
    → is_active (run ms (start todo)).reader ≡ true
    → (run (turns (2 * length todo + 1)) (run ms (start todo))).reader ≡ returned
run-ends todo ms active =
    turns-end (2 * length todo + 1) (run ms (start todo)) active
      (omega (arith, work-run ms (start todo), start_work todo))
