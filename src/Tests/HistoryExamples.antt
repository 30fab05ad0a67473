-- ===== src/Tests/HistoryExamples.antt =====
-- The theorems on the repository at a run from one user: a creation, an update and an expiry.
use kratos_layout_monolith.Prelude.{false, none, [], ◌∷◌, ◌≡◌, refl}
use kratos_layout_monolith.Prelude.Int.{ℤ, pos}
use kratos_layout_monolith.Errors.{ok}
use kratos_layout_monolith.External.Redis.{Externals, lead}
use kratos_layout_monolith.Cache.Metrics.Local.{new_local_metrics}
use kratos_layout_monolith.Cache.Metrics.Collector.{local}
use kratos_layout_monolith.Cache.State.{State, background}
use kratos_layout_monolith.Cache.Coherence.{NetLaws}
use kratos_layout_monolith.User.Model.{User}
use kratos_layout_monolith.User.Keys.{username_index}
use kratos_layout_monolith.User.Repo.{
  get_user_by_id, get_user_by_username, create_user, update_user, delete_user,
}
use kratos_layout_monolith.User.Repo.Lookups.{UserAnswer}
use kratos_layout_monolith.User.Repo.Consistent.{
  Consistent, IndexedAnswer, get_user_by_username-Consistent,
}
use kratos_layout_monolith.User.Repo.Plain.{PlainIn}
use kratos_layout_monolith.User.Repo.ConsistentWrites.{Up}
use kratos_layout_monolith.User.Repo.ConsistentUpdates.{
  update_user-Consistent, delete_user-Consistent,
}
use kratos_layout_monolith.User.Repo.ConsistentCreates.{create_user-Consistent}
use kratos_layout_monolith.User.Repo.Histories.{
  Reach, here, next, create, update, lookups_after_history,
}
use kratos_layout_monolith.Tests.World.{world, world_laws, sinks, removed, drop_keeps, drop_drops}
use kratos_layout_monolith.Tests.Coding.{row_json, row_laws}
use kratos_layout_monolith.Tests.Table.{clock, Rows, table, table_laws, alice, redis}

-- A server that is never down, behind a breaker that never opens.
abbrev pub calm : Externals
calm = record (world lead) { del = λ ctx ks n. (ok tt, removed ks n); allow = λ b. (none, b) }

abbrev pub calm_laws : NetLaws calm
calm_laws = record {
  contents = λ n k. n.store k;
  get_reads = (world_laws lead).get_reads;
  get_keeps = (world_laws lead).get_keeps;
  set_keeps = (world_laws lead).set_keeps;
  set_nx_keeps = (world_laws lead).set_nx_keeps;
  del_keeps = λ ctx ks n i d h. drop_keeps ks n i d h;
  del_drops = λ ctx ks n i h named. drop_drops ks n i named;
}

pub calm-Up : Up calm redis (background calm)
calm-Up = record { has_client = refl; closed = λ b. refl; deletes = λ ks n. refl }

abbrev pub start : State calm sinks Rows
start = record {
  collector = local new_local_metrics;
  rng = tt;
  net = record { down = false; store = λ _. none };
  breaker = false;
  flights = tt;
  jobs = [];
  db = alice ∷ [];
}

pub start-Consistent : Consistent table table_laws row_laws calm_laws start
start-Consistent = ((refl, refl, tt), λ k d h. cc)

pub start-PlainIn : PlainIn table table_laws start.db
start-PlainIn = (refl, refl, tt)

abbrev bob : ℤ → User
bob id = record {
  id = id;
  username = "bob";
  password = "";
  email = "bob@example.com";
  phone = "";
  nickname = "";
  avatar = "";
  status = pos 1;
  version = pos 0;
  created_at = "";
  updated_at = "";
}

-- What the service passes to an update: no username and no address.
abbrev nameless : User
nameless = record (bob (pos 1)) { username = ""; email = "" }

get_user_by_username-Consistent_example :
    let (res, s') =
      get_user_by_username clock table calm sinks row_json redis (background calm) "alice" start in
    IndexedAnswer table table_laws username_index "alice" (alice ∷ []) res
    × (s'.db ≡ alice ∷ [])
    × Consistent table table_laws row_laws calm_laws s'
get_user_by_username-Consistent_example =
    get_user_by_username-Consistent table table_laws row_laws calm_laws redis (background calm)
      (λ k f. refl) "alice" start (refl, refl, start-PlainIn) start-Consistent

abbrev created : State calm sinks Rows
created =
    (create_user clock table calm sinks row_json redis (background calm) (bob (pos 0)) start).1

create_user-Consistent_example : Consistent table table_laws row_laws calm_laws created
create_user-Consistent_example =
    create_user-Consistent table table_laws row_laws calm_laws redis (background calm) calm-Up
      (bob (pos 0)) start refl refl refl start-Consistent

update_user-Consistent_example :
    Consistent table table_laws row_laws calm_laws
      (update_user clock table calm sinks row_json redis (background calm) nameless start).1
update_user-Consistent_example =
    update_user-Consistent table table_laws row_laws calm_laws redis (background calm) calm-Up
      nameless start start-Consistent

delete_user-Consistent_example :
    Consistent table table_laws row_laws calm_laws
      (delete_user clock table calm sinks row_json redis (background calm) (pos 1) start).1
delete_user-Consistent_example =
    delete_user-Consistent table table_laws row_laws calm_laws redis (background calm) calm-Up
      (pos 1) start start-Consistent

abbrev updated : State calm sinks Rows
updated = (update_user clock table calm sinks row_json redis (background calm) nameless created).1

run :
    Reach clock table table_laws calm sinks row_json calm_laws redis (background calm) start updated
run =
    next (next here (create (bob (pos 0)) refl refl refl (refl, refl) refl))
      (update nameless (refl, refl) refl)

lookups_after_history_example :
    UserAnswer table table_laws
      (pos 2)
      updated.db
      (get_user_by_id clock table calm sinks row_json redis (background calm) (pos 2) updated).0
    × IndexedAnswer table table_laws username_index "bob" updated.db
        (get_user_by_username clock table calm sinks row_json redis
          (background calm)
          "bob"
          updated).0
lookups_after_history_example =
    lookups_after_history table table_laws row_laws calm_laws redis (background calm) (λ k f. refl)
      calm-Up start updated (pos 2) "bob" run start-Consistent start-PlainIn refl (refl, refl)
