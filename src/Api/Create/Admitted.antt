-- ===== src/Api/Create/Admitted.antt =====
-- The goroutines that run were all started by requests that passed the checks.
use lukscrypt.Prelude.{Option, none, some, List, All}
use lukscrypt.Api.Reply.{Reply}
use lukscrypt.Api.Reserve.{NewVault, Dirs}
use lukscrypt.Api.Reserve.Accepted.{IsWellFormed}
use lukscrypt.Api.Create.{Launch}
use lukscrypt.Api.Create.Account.{IsLaunchOf}

-- It was started with the data of an acceptable request.
abbrev pub IsAdmitted : Dirs → Launch → Type 0
IsAdmitted d l = (r : NewVault) × IsWellFormed d r × IsLaunchOf r l

module _ (P : Launch → Type 0) where
  abbrev Keeps : Option (Launch × List Launch) → Type 0
  Keeps none = Unit
  Keeps (some (l, ls)) = P l × All P ls
