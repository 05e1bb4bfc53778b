-- ===== src/Api/Events/Picked.antt =====
-- Events that are dropped on the way.
use lukscrypt.Prelude.{List, [], ◌∷◌, ◌++◌}
use lukscrypt.Sys.{ProgressEvent}

-- Some of the events, in their order.
pub data IsPicked : List ProgressEvent → List ProgressEvent → Type 0 where
  none_left : IsPicked [] []
  taken :
      {e : ProgressEvent} {xs ys : List ProgressEvent} → IsPicked xs ys → IsPicked (e ∷ xs) (e ∷ ys)
  dropped : {e : ProgressEvent} {xs ys : List ProgressEvent} → IsPicked xs ys → IsPicked xs (e ∷ ys)

pub taken_last :
    {xs ys : List ProgressEvent} (e : ProgressEvent)
    → IsPicked xs ys
    → IsPicked (xs ++ (e ∷ [])) (ys ++ (e ∷ []))
taken_last e none_left = taken none_left
taken_last e (taken p) = taken (taken_last e p)
taken_last e (dropped p) = dropped (taken_last e p)

pub dropped_last :
    {xs ys : List ProgressEvent} (e : ProgressEvent) → IsPicked xs ys → IsPicked xs (ys ++ (e ∷ []))
dropped_last e none_left = dropped none_left
dropped_last e (taken p) = taken (dropped_last e p)
dropped_last e (dropped p) = dropped (dropped_last e p)
