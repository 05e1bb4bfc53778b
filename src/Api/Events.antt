-- ===== src/Api/Events.antt =====
-- internal/api/api.go, `vaultEvents`, and internal/vault/vault.go, the sends of `Create`: the
-- channel that carries the progress of a creation to one client, as interleaved moves. What is
-- left out: that a send may be given up only after a minute or at shutdown (it may be at any time
-- here), a second client on the same job, and the JSON of an event.
pub mod Picked
pub mod Phase
pub mod Order
pub mod Ending
mod Tests
use lukscrypt.Prelude.{
  ℕ, ◌-◌, ◌*◌, Text, text_eq, Bool, true, false, List, [], ◌∷◌, ◌++◌, length, ltb, if◌then◌else◌,
}
use lukscrypt.Prelude.Dict.{Dict, discard}
use lukscrypt.Sys.{ProgressEvent}
use lukscrypt.Api.Limiter.{second}

abbrev pub capacity : ℕ
capacity = 64

-- `send` and `sendTerminal`
pub data Sending : Type 0 where
  progress : ProgressEvent → Sending
  terminal : ProgressEvent → Sending

-- The handler: not there yet, sending events to its client, emptying the channel after the client
-- has left, or returned.
pub data Reader : Type 0 where
  absent streaming draining returned : Reader

pub record Stream : Type 0 where
  -- what the creation has yet to send, before it closes the channel
  pub todo : List Sending
  pub queue : List ProgressEvent
  pub closed : Bool
  pub reader : Reader
  pub delivered : List ProgressEvent
  -- the job is in the handler's map
  pub listed : Bool

pub data Move : Type 0 where
  -- the creation's goroutine goes on, or gives a terminal send up
  creates gives_up : Move
  -- the client connects, its handler receives, the client leaves
  connects receives leaves : Move

has_room : List ProgressEvent → Bool
has_room q = ltb (length q) capacity

-- A progress event is dropped if the buffer is full; a terminal one waits.
unfoldable pub send : List Sending → Stream → Stream
unfolding has_room
send [] s = record s { closed = true }
send (progress e ∷ todo) s =
    if has_room s.queue
    then record s { todo = todo; queue = s.queue ++ (e ∷ []) }
    else record s { todo = todo }
send (terminal e ∷ todo) s =
    if has_room s.queue then record s { todo = todo; queue = s.queue ++ (e ∷ []) } else s

give_up : List Sending → Stream → Stream
give_up (terminal e ∷ todo) s = record s { todo = todo }
give_up _ s = s

connect : Reader → Stream → Stream
connect absent s = if s.listed then record s { reader = streaming } else s
connect _ s = s

-- An empty channel ends the handler if it is closed.
receive_from : Reader → List ProgressEvent → Stream → Stream
receive_from streaming (e ∷ q) s = record s { queue = q; delivered = s.delivered ++ (e ∷ []) }
receive_from streaming [] s = if s.closed then record s { reader = returned; listed = false } else s
receive_from draining (e ∷ q) s = record s { queue = q }
receive_from draining [] s = if s.closed then record s { reader = returned } else s
receive_from _ q s = s

leave : Reader → Stream → Stream
leave streaming s = record s { reader = draining; listed = false }
leave _ s = s

unfoldable pub step : Move → Stream → Stream
unfolding send give_up connect receive_from leave
step creates s = send s.todo s
step gives_up s = give_up s.todo s
step connects s = connect s.reader s
step receives s = receive_from s.reader s.queue s
step leaves s = leave s.reader s

unfoldable pub run : List Move → Stream → Stream
unfolding step
run [] s = s
run (m ∷ ms) s = run ms (step m s)

-- The channel is made and the job listed before the goroutine starts.
unfoldable pub start : List Sending → Stream
start todo = record {
  todo = todo;
  queue = [];
  closed = false;
  reader = absent;
  delivered = [];
  listed = true;
}

-- `cleanupJobs`: the jobs by their id, with the time of their creation.
unfoldable pub cleanup_jobs : (now : ℕ) → Dict Text ℕ → Dict Text ℕ
cleanup_jobs now jobs = discard (λ created. ltb (1800 * second) (now - created)) jobs
