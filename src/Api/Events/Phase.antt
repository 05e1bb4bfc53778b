-- ===== src/Api/Events/Phase.antt =====
-- A creation before and after its terminal event.
use lukscrypt.Prelude.{
  false, List, [], ◌∷◌, ◌++◌, map, ◌≡◌, refl, sym, subst, ◌∙◌, ◌⊎◌, inl, inr, append_assoc,
  append-nil, length, ltb, Bool-cases,
}
use lukscrypt.Sys.{ProgressEvent}
use lukscrypt.Api.Events.Picked.{IsPicked, taken_last, dropped_last}
use lukscrypt.Api.Events.{capacity, Sending, progress, terminal, Stream, has_room, send}

-- Progress events, and the terminal one at the end.
abbrev pub creation : List ProgressEvent → ProgressEvent → List Sending
creation ps e = map progress ps ++ (terminal e ∷ [])

-- What the client has or will receive of what was sent.
abbrev pub seen : Stream → List ProgressEvent
seen s = s.delivered ++ s.queue

module _ (ps : List ProgressEvent) (e : ProgressEvent) where
  -- Before the terminal event was sent, and after.
  pub record Before (s : Stream) : Type 0 where
    pub sent : List ProgressEvent
    pub rest : List ProgressEvent
    pub all_sent : ps ≡ sent ++ rest
    pub to_send : s.todo ≡ creation rest e
    pub picked : IsPicked (seen s) sent
    pub not_closed : s.closed ≡ false

  pub record After (s : Stream) : Type 0 where
    pub kept : List ProgressEvent
    pub none_to_send : s.todo ≡ []
    pub picked : IsPicked kept ps
    pub ends : seen s ≡ kept ++ (e ∷ [])

  abbrev pub Phase : Stream → Type 0
  Phase s = Before s ⊎ After s

  pub Phase-same :
      {s s' : Stream}
      → s'.todo ≡ s.todo
      → seen s' ≡ seen s
      → s'.closed ≡ s.closed
      → Phase s
      → Phase s'
  Phase-same same_todo same_seen same_closed (inl b) = inl (record {
    sent = b.sent;
    rest = b.rest;
    all_sent = b.all_sent;
    to_send = same_todo ∙ b.to_send;
    picked = rw same_seen b.picked;
    not_closed = same_closed ∙ b.not_closed;
  })
  Phase-same same_todo same_seen same_closed (inr a) = inr (record {
    kept = a.kept;
    none_to_send = same_todo ∙ a.none_to_send;
    picked = a.picked;
    ends = same_seen ∙ a.ends;
  })

  send_phase_lem :
      (sent rest : List ProgressEvent) (s : Stream)
      → ps ≡ sent ++ rest
      → s.todo ≡ creation rest e
      → IsPicked (seen s) sent
      → s.closed ≡ false
      → Phase (send (creation rest e) s)
  unfolding send has_room
  send_phase_lem sent [] s all_sent to_send picked open' =
      elim (Bool-cases (ltb (length s.queue) capacity)) [
        | inl room ↦ rw room (
            inr (record {
              kept = seen s;
              none_to_send = refl;
              picked = subst (IsPicked (seen s)) (sym (all_sent ∙ append-nil sent)) picked;
              ends = sym (append_assoc s.delivered s.queue (e ∷ []));
            }))
        | inr full ↦ rw full (
            inl (record {
              sent = sent;
              rest = [];
              all_sent = all_sent;
              to_send = to_send;
              picked = picked;
              not_closed = open';
            }))
      ]
  send_phase_lem sent (r ∷ rest) s all_sent to_send picked open' =
      let all_sent' = all_sent ∙ sym (append_assoc sent (r ∷ []) rest) in
      elim (Bool-cases (ltb (length s.queue) capacity)) [
        | inl room ↦ rw room (
            inl (record {
              sent = sent ++ (r ∷ []);
              rest = rest;
              all_sent = all_sent';
              to_send = refl;
              picked =
                  subst (λ xs. IsPicked xs (sent ++ (r ∷ [])))
                    (append_assoc s.delivered s.queue (r ∷ [])) (taken_last r picked);
              not_closed = open';
            }))
        | inr full ↦ rw full (
            inl (record {
              sent = sent ++ (r ∷ []);
              rest = rest;
              all_sent = all_sent';
              to_send = refl;
              picked = dropped_last r picked;
              not_closed = open';
            }))
      ]

  pub send-Phase : (s : Stream) → Phase s → Phase (send s.todo s)
  unfolding send
  send-Phase s (inl b) =
      subst (λ t. Phase (send t s)) (sym b.to_send)
        (send_phase_lem b.sent b.rest s b.all_sent b.to_send b.picked b.not_closed)
  send-Phase s (inr a) =
      subst (λ t. Phase (send t s)) (sym a.none_to_send)
        (inr (record {
          kept = a.kept;
          none_to_send = a.none_to_send;
          picked = a.picked;
          ends = a.ends;
        }))
