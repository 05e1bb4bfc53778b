-- ===== src/Api/Events/Tests.antt =====
-- The event stream at concrete moves.
use lukscrypt.Prelude.{
  ◌+◌, ◌*◌, true, false, List, [], ◌∷◌, ◌++◌, ◌≡◌, refl, length, text, replicate,
}
use lukscrypt.Sys.{ProgressEvent}
use lukscrypt.Api.Events.{returned, Move, creates, connects, receives, leaves, step, run, start}
use lukscrypt.Api.Events.Ending.{turns, is_active, run-ends}
use lukscrypt.Api.Events.Order.{run-delivers}
use lukscrypt.Api.Events.Phase.{creation}
use lukscrypt.Api.Events.Picked.{IsPicked}

abbrev half : ProgressEvent
half = record {
  step = text "allocate";
  message = [];
  percent = 50;
  error = [];
  done = false;
  vault_id = 0;
}

abbrev end : ProgressEvent
end = record half { percent = 100; done = true; vault_id = 1 }

abbrev watched : List Move
watched = creates ∷ connects ∷ creates ∷ receives ∷ receives ∷ creates ∷ receives ∷ []

watched-delivered : (run watched (start (creation (half ∷ []) end))).delivered ≡ half ∷ end ∷ []
unfolding run step start
watched-delivered = refl

watched-returned : (run watched (start (creation (half ∷ []) end))).reader ≡ returned
unfolding run step start
watched-returned = refl

-- Nobody is there: the sixty-fifth progress event is dropped, and the terminal one waits.
crowded : length (run (replicate 70 creates) (start (creation (replicate 65 half) end))).todo ≡ 1
unfolding run step start
crowded = refl

run-delivers_example :
    (kept : List ProgressEvent) × IsPicked kept (half ∷ [])
    × ((run watched (start (creation (half ∷ []) end))).delivered ≡ kept ++ (end ∷ []))
run-delivers_example = run-delivers (half ∷ []) end watched refl watched-returned

abbrev left : List Move
left = connects ∷ leaves ∷ []

left-active : is_active (run left (start (creation (half ∷ []) end))).reader ≡ true
unfolding run step start
left-active = refl

run-ends_example :
    (run
      (turns (2 * length (creation (half ∷ []) end) + 1))
      (run left (start (creation (half ∷ []) end)))).reader
    ≡ returned
run-ends_example = run-ends (creation (half ∷ []) end) left left-active
