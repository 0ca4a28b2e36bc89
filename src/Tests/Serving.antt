-- ===== src/Tests/Serving.antt =====
-- The whole program on concrete requests.
use nx_remote_cache.Base.{
  List, [], arith, bytes, false, has_prefix, if◌then◌else◌, inl, none, pos, refl, some, text_eq,
  text_lt, trim_prefix, trim_space, true, ℕ, ◌-ℤ◌, ◌∷◌, ◌≡◌, ◌≢◌,
}
use nx_remote_cache.Storage.{ListPage, valid_hash}
use nx_remote_cache.Storage.Contract.{Artifact}
use nx_remote_cache.Storage.Disk.{Disk, find_node, stat}
use nx_remote_cache.Storage.Local.Cache.{local-IsStore, holds}
use nx_remote_cache.Store.{User, Fate}
use nx_remote_cache.Store.Consistency.{IsConsistent}
use nx_remote_cache.World.{World}
use nx_remote_cache.Janitor
use nx_remote_cache.Server.{handle_get, handle_put}
use nx_remote_cache.Routing.{Request, routed, match_path, find_route, fits_path}
use nx_remote_cache.Admin.{put, no_content, get, delete}
use nx_remote_cache.Admin.Users.Race.{counting, answered, delete_step, delete_step-leaves_none}
use nx_remote_cache.Admin.Routes as AdminRoutes
use nx_remote_cache.Admin.Routes.{Server, State, Draws, Decoders, admin_routes}
use nx_remote_cache.Admin.Routes.Refusal.{serve-refuses, IsRefusal, IsUntouched}
use nx_remote_cache.System
use nx_remote_cache.System.{Event, requested, recorded, swept, serve, main_routes}
use nx_remote_cache.Session.{current_user, hash_id}
use nx_remote_cache.Store.Sessions.{get_session}
use nx_remote_cache.Store.Users.{get_user_by_id}
use nx_remote_cache.Store.Tokens.{revoke_token}
use nx_remote_cache.Store.Reads.{list_all_cache_read_stats}
use nx_remote_cache.Auth.{hash_token, extract_bearer}
use nx_remote_cache.Admin.{protected}
use nx_remote_cache.Admin.Tokens.{handle_revoke_token}
use nx_remote_cache.Admin.Login.{handle_me}
use nx_remote_cache.Admin.Routes.{act, encoded}
use nx_remote_cache.System.{dispatch, step}
use nx_remote_cache.Server.{run_pending}
use nx_remote_cache.Janitor.{sweep, sweep_once, sweep_pages, sweep_entries, should_delete}
use nx_remote_cache.Server.{Response}
use nx_remote_cache.Storage.Contract.{upload}
use nx_remote_cache.Admin.Routes.{page}
use nx_remote_cache.System.RoundTrip.{serve-get-after-put}
use nx_remote_cache.Server.Routes as DataRoutes
use nx_remote_cache.Storage.Local
use nx_remote_cache.Storage.Disk.{create_temp, copy_to, close, link}
use nx_remote_cache.Auth.{authorize}
use nx_remote_cache.Store.Tokens.{authenticate}
use nx_remote_cache.System.Invariants.{life-IsConsistent, started}
use nx_remote_cache.System.Persistence.{system_run-keeps}
use nx_remote_cache.System.Revocation.{revocation-turns_away, IsTurnedAway}
use nx_remote_cache.Tests.{file, disk, plain, world, db, ann, writer, upload_new, old_bytes}
use nx_remote_cache.Tests.Starting.{outside}
use nx_remote_cache.Tests.Config.{cipher, builders}

-- A limiter that never limits, and decoders that take no body.
abbrev server : Server Disk ℕ
server = record {
  primitives = plain;
  cookie_secure = true;
  rate = record { fresh = 0; allow = λ time l. (true, l) };
  split_host_port = λ addr. none;
  decode = record {
    login = λ r. none;
    create_user = λ r. none;
    change_password = λ r. none;
    create_token = λ r. none;
    bulk_delete = λ r. none;
    prune = λ r. some (pos 1);
    update_settings = λ r. none;
  };
  parse_int = λ t. if text_eq t (bytes "1") then some (pos 1) else none;
  cipher = cipher;
  builders = builders;
  assets = none;
  fuel = 5;
}

abbrev draws : Draws
draws = record { time = pos 2000; salt = 0; random = none; nonce = λ n. none }

abbrev state : State Disk ℕ
state = record { limiters = []; world = world }

abbrev get_me : Request
get_me = record {
  method = get;
  path = bytes "admin" ∷ bytes "api" ∷ bytes "auth" ∷ bytes "me" ∷ [];
  query = λ name. [];
  remote_addr = [];
  csrf = [];
  session = some (bytes "sid");
  authorization = [];
  content_length = pos 0;
  body = record { content = []; broken = false };
}

abbrev revoke_1 : Request
revoke_1 = record get_me {
  method = delete;
  path = bytes "admin" ∷ bytes "api" ∷ bytes "tokens" ∷ bytes "1" ∷ [];
  csrf = bytes "1";
}

-- A deletion of "old" without a session.
abbrev intruder : Request
intruder = record revoke_1 {
  path = bytes "admin" ∷ bytes "api" ∷ bytes "cache" ∷ bytes "old" ∷ [];
  session = none;
}

-- The artifact "old" was stored at 1000, and the janitor deletes what is older than 50.
abbrev rules : Janitor.Config
rules = record { max_age = pos 50; unread_after = pos 20 }

abbrev events : List Event
events = requested draws get_me ∷ recorded 0 ∷ swept (pos 1010) ∷ requested draws revoke_1 ∷ []

abbrev db-IsConsistent : IsConsistent db
db-IsConsistent = record {
  users = record { emails = (refl, tt); ids = (refl, tt); drawn = refl };
  sessions = record { keys = (refl, tt); owners = refl };
  tokens = record { hashes = (refl, tt); ids = (refl, tt); drawn = refl; creators = refl };
  reads = tt;
  settings = record { backend = refl; ttl = refl; updater = refl };
}

life-IsConsistent_example :
    IsConsistent
      (System.run server rules events (
        started server rules outside builders world
          (pos 7)
          (λ n. Fate.delivered)
          (λ n. pos n))).world.db
life-IsConsistent_example =
    life-IsConsistent server rules outside builders world (pos 7) (λ n. Fate.delivered) (λ n. pos n)
      events

program : Unit {0}
unfolding text_eq hash_id valid_hash AdminRoutes.serve AdminRoutes.handle act encoded protected
    current_user routed find_route fits_path match_path admin_routes main_routes dispatch serve
    get_session get_user_by_id revoke_token handle_revoke_token handle_me step run_pending
    sweep_once sweep sweep_pages sweep_entries list_all_cache_read_stats System.run hash_token
    extract_bearer has_prefix trim_prefix trim_space should_delete
program = tt

serve-refuses_example :
    let out = AdminRoutes.serve server draws intruder state in
    IsRefusal out.0 × IsUntouched world out.1.world × (out.1.limiters ≡ [])
unfolding program
serve-refuses_example = serve-refuses server draws intruder state (λ e. ground arith) (inl refl)

abbrev old : Artifact
old = record { content = old_bytes; mod_time = pos 1000 }

-- The listing of entries comes between; the janitor finds "old" too young.
system_run-keeps_example :
    holds (System.run server rules events state).world.storage (bytes "old") ≡ some old
unfolding program ◌-ℤ◌ holds find_node
system_run-keeps_example =
    system_run-keeps holds (λ h. true) (bytes "old") old server rules events state refl
      (inl refl, (tt, ((refl, inl refl), (inl refl, tt)))) local-IsStore refl

revocation-turns_away_example :
    let w = (System.run server rules events (serve server draws revoke_1 state).1).world in
    IsTurnedAway (handle_get plain upload_new w).0.status
    × IsTurnedAway (handle_put plain upload_new w).0.status
unfolding program
revocation-turns_away_example =
    revocation-turns_away server draws revoke_1 state rules events 49 [] writer upload_new
      db-IsConsistent refl refl refl refl refl refl

-- Two artifacts, the second of which has been read.
abbrev shelf : World Disk
shelf = record world {
  storage = record disk {
    nodes = file (bytes "late") old_bytes (pos 2000) ∷ file (bytes "old") old_bytes (pos 1000) ∷ [];
  };
  db = record db {
    reads =
        record {
          hash = bytes "old";
          stats = record { read_count = 1; last_read_at = some (pos 3000) };
        }
        ∷ [];
  };
}

abbrev first_page : ListPage
first_page = record {
  entries =
      record { hash = bytes "late"; size = 2; mod_time = pos 2000 }
      ∷ record { hash = bytes "old"; size = 2; mod_time = pos 1000 }
      ∷ [];
  next_cursor = [];
}

-- Two admins, who are all there are.
abbrev bob : User
bob = record ann { id = pos 2; email = bytes "b@b" }

abbrev pair : World Disk
pair = record world { db = record db { users = ann ∷ bob ∷ [] } }

delete_step-leaves_none_example :
    let counted_ann = delete_step plain (pos 2) ann counting pair in
    let counted_bob = delete_step plain (pos 1) bob counting counted_ann.1 in
    let deleted_bob = delete_step plain (pos 2) ann counted_ann.0 counted_bob.1 in
    let deleted_ann = delete_step plain (pos 1) bob counted_bob.0 deleted_bob.1 in
    (deleted_bob.0 ≡ answered no_content)
    × (deleted_ann.0 ≡ answered no_content)
    × (deleted_ann.1.db.users ≡ [])
delete_step-leaves_none_example =
    delete_step-leaves_none plain ann bob pair refl (λ e. ground arith) (λ n. refl)

abbrev put_new : Request
put_new = record get_me {
  method = put;
  path = bytes "v1" ∷ bytes "cache" ∷ bytes "new" ∷ [];
  authorization = bytes "Bearer w";
  content_length = pos 3;
  body = upload_new.body;
}

abbrev get_new : Request
get_new = record put_new { method = get }

abbrev between : List Event
between = requested draws get_me ∷ recorded 0 ∷ []

serve-get-after-put_example :
    (x : Response) × ((serve server draws get_new
        (System.run server rules between (serve server draws put_new state).1)).0
      ≡ page x)
    × (x.status ≢ 404)
    × (x.status ≡ 200 → x.body ≡ upload put_new.body (pos 3))
unfolding program DataRoutes.serve DataRoutes.data_routes handle_put authorize authenticate
    Local.put stat create_temp copy_to text_lt close link
serve-get-after-put_example =
    serve-get-after-put holds (λ h. true) server rules draws draws put_new get_new state 110
      (bytes "ew") between refl refl refl refl local-IsStore refl (λ a there. (inl refl, (tt, tt)))
