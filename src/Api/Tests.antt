-- ===== src/Api/Tests.antt =====
-- The api package at concrete inputs: an instance of each theorem.
use lukscrypt.Prelude.{
  length, ◌≤◌, ◌^◌, ◌⊎◌, text_eq, nat_eq, ℕ, Text, true, false, Option, none, some, List, [], ◌∷◌,
  ◌++◌, ◌≡◌, ◌≢◌, refl, ap, ◌↔◌, arith, if◌then◌else◌, text, text_beq, trim_space, contains, split,
  All, Any,
}
use lukscrypt.Prelude.Dict.{lookup}
use lukscrypt.Prelude.FilePath.{dotdot, join_parts}
use lukscrypt.Sys.{Vault, Res, ok}
use lukscrypt.Api.Sessions.{Policy, Sessions, valid_session, run, request, cleanup}
use lukscrypt.Api.Sessions.Refine.{run-refines}
use lukscrypt.Api.Sessions.Ticket.{accepts, use_all}
use lukscrypt.Api.Limiter.Tests.{buckets}
use lukscrypt.Api.Limiter.{Limiters, auth_allowed}
use lukscrypt.Api.ClientIp.{client_ip}
use lukscrypt.Api.ClientIp.Spoofing.{client_ip_unspoofed}
use lukscrypt.Api.Auth.{
  Request, Config, Login, refused, AuthState, ip_of, auth, login, valid_api_credentials,
}
use lukscrypt.Api.Auth.Laws.{IsMaster, login_iff}
use lukscrypt.Api.AutoLock.{auto_lock_sweep}
use lukscrypt.Sys.Ensures.{Ensures}
use lukscrypt.Api.AutoLock.Sweep.{unwatched, IsDue, auto_lock_sweep-spares}
use lukscrypt.Api.Input.{decode_key_file, path_in_storage_dir}
use lukscrypt.Api.Input.Laws.{decode_key_file_iff, LiesIn, path_in_storage_dir-LiesIn}

abbrev policy : Policy
policy = record { idle = 30; max_age = 100 }

abbrev one_session : Sessions
one_session = (text "abc", record { created_at = 0; last_seen = 50 }) ∷ []

abc_nonempty : text "abc" ≢ []
unfolding text
abc_nonempty e = cc

run-refines_example :
    (valid_session policy 95
      (some (text "abc"))
      (run policy (request 60 (some (text "abc")) ∷ cleanup 70 ∷ []) one_session)).0
    ≡ accepts policy 95 (
        use_all policy
          (text "abc")
          (request 60 (some (text "abc")) ∷ cleanup 70 ∷ [])
          (lookup (text "abc") one_session))
unfolding lookup
run-refines_example =
    run-refines policy (text "abc") 55 95 (request 60 (some (text "abc")) ∷ cleanup 70 ∷ [])
      one_session abc_nonempty (refl, tt) (omega arith, (omega arith, omega arith))

client_ip_unspoofed_example :
    (client_ip true (text "6.6.6.6" ++ (b',' ∷ text " 1.2.3.4")) (text "10.0.0.1:80")
      ≡ trim_space (text " 1.2.3.4"))
    × (client_ip false (text "6.6.6.6") (text "10.0.0.1:80")
        ≡ client_ip false [] (text "10.0.0.1:80"))
unfolding text trim_space
client_ip_unspoofed_example =
    client_ip_unspoofed (text "6.6.6.6") (text " 1.2.3.4") (text "10.0.0.1:80") (text "6.6.6.6")
      (omega arith) (λ e. cc)

abbrev config : Config
config = record {
  auth_user = text "admin";
  auth_pass = text "secret";
  trust_proxy = false;
  policy = policy;
}

abbrev with_basic : Request
with_basic = record {
  method = text "GET";
  host = text "nas";
  origin = [];
  accept = text "*/*";
  authorization = text "Basic YWRtaW46c2VjcmV0";
  basic = some (text "admin", text "secret");
  cookie = none;
  xff = [];
  remote_addr = text "10.0.0.1:80";
}

abbrev anonymous : Request
anonymous = record with_basic { authorization = []; basic = none }

-- Buckets that never allow anything.
abbrev closed : Limiters
closed = record { State = Unit {0}; new = λ i b. tt; allow = λ t s. (false, tt) }

abbrev at_start : AuthState buckets
at_start = record { sessions = one_session; auth_limiters = []; touched = [] }

abbrev at_closed : AuthState closed
at_closed = record { sessions = one_session; auth_limiters = []; touched = [] }

abbrev hash : Text → Text
hash s = s

abbrev stored : Text → Option ℕ
stored s = if text_beq s (text "tok") then some 7 else none

abbrev no_hosts : Text → Option Text
no_hosts origin = none

anonymous-refused : (auth buckets config hash stored 60 anonymous at_start).0 ≡ refused 401
unfolding auth auth_allowed client_ip lookup text text_beq valid_session valid_api_credentials
    contains
anonymous-refused = refl

abbrev master : Login
master = record { user = text "admin"; password = text "secret" }

login_iff_example :
    ((login buckets config 60 (some (text "new")) anonymous (some master) at_start).0 ≡ 200) ↔ (
      ((auth_allowed buckets 60 (ip_of buckets config anonymous) []).0 ≡ true)
      × (some (text "new") ≢ none)
      × ((b : Login) × (some master ≡ some b) × IsMaster config b))
login_iff_example = login_iff buckets config 60 (some (text "new")) anonymous (some master) at_start

abbrev photos : Vault
photos = record {
  id = 3;
  name = text "photos";
  path = text "/v/photos.img";
  size_gb = 10;
  mount_point = text "/mnt/photos";
  mapper_name = text "photos";
  created_at = [];
}

auto_lock_sweep-spares_example :
    Ensures unwatched
      (λ _ m'.
        (lookup 2 m' ≡ lookup {K = ℕ} {V = ℕ} 2 ((2, 80) ∷ (3, 40) ∷ []))
        ⊎ ((lookup 2 m' ≡ none) × IsDue (some 50) 100 2 ((2, 80) ∷ (3, 40) ∷ [])))
      tt
      (auto_lock_sweep (some 50) 100 (λ id. some photos) ((2, 80) ∷ (3, 40) ∷ []))
unfolding lookup
auto_lock_sweep-spares_example =
    auto_lock_sweep-spares (some 50) 100 (λ id. some photos) ((2, 80) ∷ (3, 40) ∷ []) 2
      (refl, (refl, tt))

abbrev no_links : Text → Res Text
no_links p = ok p

storage : List Text
storage = text "/srv/vaults/" ∷ []

path_in_storage_dir_test :
    path_in_storage_dir no_links storage (text "/srv//vaults/../vaults/a.img")
    ≡ (text "/srv/vaults/a.img", true)
unfolding path_in_storage_dir storage text text_beq split
path_in_storage_dir_test = refl

path_in_storage_dir-LiesIn_example :
    ((parts : List Text) × ((path_in_storage_dir no_links storage
          (text "/srv//vaults/../vaults/a.img")).0
        ≡ b'/' ∷ join_parts parts)
      × All (λ q. q ≢ dotdot) parts)
    × Any
        (LiesIn no_links
          (path_in_storage_dir no_links storage (text "/srv//vaults/../vaults/a.img")).0)
        storage
unfolding text
path_in_storage_dir-LiesIn_example =
    path_in_storage_dir-LiesIn no_links storage (text "/srv//vaults/../vaults/a.img") refl
      (ap (λ t. t.1) path_in_storage_dir_test)

decode_key_file_iff_example :
    (decode_key_file (λ t. some t) (text "secret key") ≡ ok (text "secret key")) ↔ (
      (◌≡◌ {A = Option Text} (some (text "secret key")) (some (text "secret key")))
      × (8 ≤ length (text "secret key"))
      × (length (text "secret key") ≤ 2 ^ 20))
decode_key_file_iff_example =
    decode_key_file_iff (λ t. some t) (text "secret key") (text "secret key")
