-- ===== src/Pastebin/Tests.antt =====
-- Runs of the paste service, and its theorems at one input each.
use system_design.Common.{ℕ, ◌≡◌, refl, true, false, [], ◌∷◌, none, some}
use system_design.Common.Bytes.{codes, beq}
use system_design.Common.Assoc.{lookup}
use system_design.Pastebin.{
  Paste, Service, Health, CreateRequest, private, new_paste, create, created, get, found, failed,
  delete, deleted, forbidden, expired, run_pending,
}
use system_design.Pastebin.Access.{IsDelivered, get-IsDelivered}

abbrev well : Health
well = record { repo_up = true; blobs_up = true; cache_up = true }

abbrev request : CreateRequest
request = record {
  owner_id = codes "ann";
  title = codes "t";
  language = codes "go";
  visibility = some private;
  content = codes "hi";
  ttl = some 60;
  burn_after_read = true;
}

abbrev empty : Service
empty = record { repo = []; blobs = []; cache = []; pending = [] }

abbrev paste : Paste
paste = new_paste 100 (codes "x") request

abbrev stored : Service
stored = record {
  repo = (codes "x", paste) ∷ [];
  blobs = (codes "pastes/x", codes "hi") ∷ [];
  cache = [];
  pending = [];
}

create_runs : create well 100 (codes "x") request empty ≡ (created paste, stored)
unfolding create new_paste
create_runs = refl

get_denied : (get well 120 (codes "x") (codes "bob") stored).0 ≡ failed forbidden
unfolding get new_paste beq lookup
get_denied = refl

get_runs : (get well 120 (codes "x") (codes "ann") stored).0 ≡ found paste (codes "hi")
unfolding get new_paste beq lookup
get_runs = refl

burnt : (run_pending well (get well 120 (codes "x") (codes "ann") stored).1).repo ≡ []
unfolding run_pending get new_paste beq lookup
burnt = refl

get-IsDelivered_example : IsDelivered well 120 (codes "x") (codes "ann") stored paste (codes "hi")
get-IsDelivered_example = get-IsDelivered well 120 (codes "x") (codes "ann") stored get_runs

burns : paste.burn_after_read ≡ true
unfolding new_paste
burns = refl

unknown : lookup {V = Paste} (codes "x") [] ≡ none
unfolding lookup
unknown = refl

uncached : lookup {V = Paste × ℕ} (codes "x") [] ≡ none
unfolding lookup
uncached = refl

in_time : expired 150 paste ≡ false
unfolding expired new_paste
in_time = refl

known : lookup (codes "x") stored.repo ≡ some paste
unfolding lookup beq
known = refl

own_id : paste.id ≡ codes "x"
unfolding new_paste
own_id = refl

delete_runs : (delete well (codes "x") (codes "ann") stored).0 ≡ deleted
unfolding delete new_paste
delete_runs = refl
