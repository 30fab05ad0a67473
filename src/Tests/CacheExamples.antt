-- ===== src/Tests/CacheExamples.antt =====
-- The theorems on the cache at a row `alice` of a table with one row.
use mathlib.Core.Option.{some-injective}
use kratos_layout_monolith.Prelude.{
  ◌≤◌, ◌*◌, String, Bool, true, false, Option, none, some, List, [], ◌∷◌, ◌≡◌, ◌⊎◌, ◌≢◌, ◌↔◌, inl,
  inr, refl, ap, subst, str_eq, eq_iff, if◌then◌else◌, arith, Bool-cases, get_or,
}
use kratos_layout_monolith.Prelude.Int.{pos}
use kratos_layout_monolith.Prelude.Text.{codes}
use kratos_layout_monolith.Errors.{Error, not_found, opaque, ok, err, Done, Result}
use kratos_layout_monolith.External.Redis.{Externals, Json, Shared, index, row, Role, lead, follow}
use kratos_layout_monolith.Cache.Metrics.Local.{LocalMetrics, new_local_metrics}
use kratos_layout_monolith.Cache.Metrics.Collector.{local}
use kratos_layout_monolith.Cache.State.{Redis, State, background, Job, second}
use kratos_layout_monolith.Cache.Commands.{placeholder, cache_get}
use kratos_layout_monolith.Cache.Coherence.{NetLaws, Image, Coherent, Holds}
use kratos_layout_monolith.Cache.Take.{Query, take}
use kratos_layout_monolith.Cache.Take.Spec.{JsonLaws, Reads, Answer, IsSound, SharesSound}
use kratos_layout_monolith.Cache.Take.Transparent.{take-Answer}
use kratos_layout_monolith.Cache.Take.Counting.{take_hits-le-misses}
use kratos_layout_monolith.Cache.CachedDb.{IndexQuery, query_row_index, exec}
use kratos_layout_monolith.Cache.CachedDb.Index.{
  Finds, IndexImage, IndexAnswer, query_row_index-Answer,
}
use kratos_layout_monolith.Cache.CachedDb.Followers.{query_row_index_follower}
use kratos_layout_monolith.Cache.CachedDb.Writes.{
  Covers, exec-Coherent, exec_refused, exec-Reports, retry_job,
}
use kratos_layout_monolith.Cache.Paging.{page_statement, apply_build, new_statement}
use kratos_layout_monolith.Cache.Paging.Offsets.{page_statement_skips}
use kratos_layout_monolith.Cache.Delay.{run_job, Ends, run_job-Ends}
use kratos_layout_monolith.Tests.World.{world, world_laws, sinks}

-- A row is a name, and is encoded with a mark in front.
abbrev unmark : String → String → Done × String
unmark String.[] w = (err (opaque "unexpected end of JSON input"), w)
unmark (String.◌∷◌ c s) w = (ok tt, s)

abbrev name_json : Json String
name_json = record { marshal = λ v. ok (String.◌∷◌ "=" v); unmarshal = unmark }

marked_ne :
    (v t : String)
    → get_or (codes (String.◌∷◌ "=" v)) 0 0 ≢ get_or (codes t) 0 0
    → String.◌∷◌ "=" v ≢ t
marked_ne v t ne e = ne (ap (λ s. get_or (codes s) 0 0) e)

abbrev name_laws : JsonLaws name_json
name_laws = record {
  encode = λ v. String.◌∷◌ "=" v;
  marshals = λ v. refl;
  round_trip = λ v w. refl;
  ne_placeholder = λ v. marked_ne v placeholder (λ e. omega (arith, e));
  ne_empty = λ v. marked_ne v "" (λ e. omega (arith, e));
}

abbrev redis : Redis
redis = record {
  has_client = true;
  expiry = pos (60 * second);
  not_found_expiry = pos (60 * second);
}

-- The row that a lookup by the id 1 finds, in a table of at most one row.
abbrev Table : Type 0
Table = Option String

abbrev by_key : Query String Table
by_key w none = (err not_found, w, none)
by_key w (some v) = (ok tt, v, some v)

by_key-Reads : Reads by_key (some "alice") (some "alice")
by_key-Reads = record { keeps = λ w. refl; finds = λ w h. refl; misses = λ w e h is. cc }

abbrev by_name : IndexQuery String Table
by_name w none = (err not_found, w, none)
by_name w (some v) = (ok "id:1", v, some v)

by_name-Finds : Finds by_name (λ _. "id:1") (some "alice") (some "alice")
by_name-Finds = record {
  keeps = λ w. refl;
  finds = λ w {pk} h. (refl, ground arith);
  misses = λ w e h is. cc;
}

-- The row under its id, and its id under the name.
abbrev alice_image : Image
alice_image k =
    if str_eq k "id:1" then some "=alice" else if str_eq k "name:alice" then some "id:1" else none

abbrev index_only : String → Option String
index_only k = if str_eq k "name:alice" then some "id:1" else none

abbrev state :
    (role : Role) → (String → Option String) → Bool → Bool → State (world role) sinks Table
state role store down broken = record {
  collector = local new_local_metrics;
  rng = tt;
  net = record { down = down; store = store };
  breaker = broken;
  flights = tt;
  jobs = [];
  db = some "alice";
}

abbrev empty_store : String → Option String
empty_store _ = none

abbrev leading : Externals
leading = world lead

alice_images : IndexImage alice_image "name:alice" (λ _. "id:1") name_laws.encode (some "alice")
alice_images = record {
  at_index = refl;
  at_row = λ v there. ap (λ w. some (name_laws.encode w)) (some-injective _ _ there);
  ne_placeholder = λ v e. omega (arith, ap (λ t. get_or (codes t) 0 0) e);
}

index_only_is_right : (k d : String) → index_only k ≡ some d → alice_image k ≡ some d
index_only_is_right k d h = elim (Bool-cases (str_eq k "name:alice")) [
  | inl e ↦ let q = (eq_iff k "name:alice").0 e in rw q (rw q at h)
  | inr e ↦ ground arith
]

take-Answer_example :
    let (e, v, s') =
      take leading sinks name_json redis
        (background leading)
        "id:1"
        by_key
        ""
        (state lead empty_store false false) in
    Answer by_key (some "alice") (some "alice") e v
    × Holds (world_laws lead) alice_image (some "alice") s'
take-Answer_example =
    take-Answer name_laws (world_laws lead) alice_image redis (background leading) "id:1" by_key
      (some "alice") (some "alice") refl by_key-Reads (λ f shared h. cc) ""
      (state lead empty_store false false) ((λ k d h. cc), refl)

-- Another call is loading the row under its id; the name is looked up by this one alone.
abbrev loading : Externals
loading = record leading {
  join = λ key f. (if str_eq key "id:1" then follow (ok (row "=alice" false)) else lead, f);
}

abbrev loading_laws : NetLaws loading
loading_laws = record {
  contents = λ n k. n.store k;
  get_reads = (world_laws lead).get_reads;
  get_keeps = (world_laws lead).get_keeps;
  set_keeps = (world_laws lead).set_keeps;
  set_nx_keeps = (world_laws lead).set_nx_keeps;
  del_keeps = (world_laws lead).del_keeps;
  del_drops = (world_laws lead).del_drops;
}

abbrev loaded : State loading sinks Table
loaded = record {
  collector = local new_local_metrics;
  rng = tt;
  net = record { down = false; store = index_only };
  breaker = false;
  flights = tt;
  jobs = [];
  db = some "alice";
}

follow_injective : {a b : Result Shared} → ◌≡◌ {A = Role} (follow a) (follow b) → a ≡ b
follow_injective e = cc

loading-SharesSound :
    SharesSound loading "id:1" name_laws.encode by_key (some "alice") (some "alice")
loading-SharesSound f shared h =
    subst (IsSound name_laws.encode by_key (some "alice") (some "alice")) (follow_injective h)
      ("alice", refl, refl)

query_row_index-Answer_example :
    let (e, v, s') =
      query_row_index loading sinks name_json redis
        (background loading)
        ""
        "name:alice"
        by_name
        by_key
        loaded in
    IndexAnswer by_name by_key (some "alice") (some "alice") e v
    × Holds loading_laws alice_image (some "alice") s'
query_row_index-Answer_example =
    query_row_index-Answer name_laws loading_laws alice_image redis (background loading)
      "name:alice" by_name (λ _. "id:1") (some "alice") (some "alice") alice_images by_name-Finds
      by_key by_key-Reads (λ v there. loading-SharesSound) "" loaded (λ f. refl)
      (index_only_is_right, refl)

-- Another call has found the row's id under way.
abbrev busy : Role
busy = follow (ok (index "id:1" false))

query_row_index_follower_example :
    let (e, v, s') =
      query_row_index
        (world busy)
        sinks
        name_json
        redis
        (background (world busy))
        ""
        "name:alice"
        by_name
        by_key
        (state busy empty_store false false) in
    (v ≡ "")
    × (s'.db ≡ some "alice")
    × (s'.net ≡ (state busy empty_store false false).net)
    × ((e ≡ ok tt) ↔ (
        (pk : String) × (◌≡◌ {A = Result Shared} (ok (index "id:1" false)) (ok (index pk false)))))
unfolding cache_get
query_row_index_follower_example =
    query_row_index_follower name_json redis (background (world busy)) "" "name:alice" by_name
      by_key (state busy empty_store false false) (ok (index "id:1" false)) refl refl

-- A write that changes the name of the row.
abbrev rename : Table → Done × Table
rename _ = (ok tt, some "bob")

abbrev row_keys : List String
row_keys = "id:1" ∷ "name:alice" ∷ "name:bob" ∷ []

some_keys : row_keys ≢ []
some_keys e = cc

abbrev table_image : Table → Image
table_image none k = none
table_image (some v) k = if str_eq k "id:1" then some (String.◌∷◌ "=" v) else none

abbrev cached : String → Option String
cached = table_image (some "alice")

renamed_covers :
    Covers
      (world_laws lead)
      table_image
      redis
      (background leading)
      rename
      row_keys
      (state lead cached false false)
renamed_covers k = elim (Bool-cases (str_eq k "id:1")) [
  | inl e ↦ inl (inl ((eq_iff k "id:1").0 e))
  | inr e ↦ inr (ground arith)
]

exec-Coherent_example :
    let (e, s') =
      exec leading sinks redis
        (background leading)
        rename
        row_keys
        (state lead cached false false) in
    (e ≡ ok tt) × (s'.db ≡ some "bob") × Coherent (world_laws lead) (table_image s'.db) s'.net
exec-Coherent_example =
    exec-Coherent (world_laws lead) table_image redis (background leading) rename row_keys
      (state lead cached false false) refl renamed_covers (refl, some_keys, refl) refl (λ k d h. h)

exec_refused_example :
    let (e, s') =
      exec leading sinks redis
        (background leading)
        rename
        row_keys
        (state lead cached false true) in
    (e ≡ ok tt)
    × (s'.db ≡ some "bob")
    × (s'.net ≡ (state lead cached false true).net)
    × (s'.jobs ≡ [])
exec_refused_example =
    exec_refused redis (background leading) rename row_keys (state lead cached false true) refl

exec-Reports_example :
    let (e, s') =
      exec leading sinks redis
        (background leading)
        rename
        row_keys
        (state lead cached true false) in
    (e ≡ ok tt)
    × (s'.db ≡ some "bob")
    × ((s'.jobs ≡ [])
        ⊎ ((f : Error) × ((rename (some "alice")).0 ≡ ok tt)
            × ((leading.del (background leading) row_keys (state lead cached true false).net).0
                ≡ err f)
            × (s'.jobs
                ≡ retry_job redis
                    (background leading)
                    rename
                    row_keys
                    (state lead cached true false)
                  ∷ [])))
exec-Reports_example =
    exec-Reports redis (background leading) rename row_keys (state lead cached true false)

abbrev retry : Job
retry = record { max_retries = pos 3; wait_durations = pos 0 ∷ pos second ∷ []; keys = row_keys }

run_job-Ends_example :
    let (how, tried, _) =
      run_job leading sinks redis (background leading) retry (state lead cached true false) in
    Ends redis
      (background leading)
      (pos 0 ∷ pos second ∷ [])
      row_keys
      3
      0
      (state lead cached true false)
      how
      tried
run_job-Ends_example = run_job-Ends redis (background leading) retry (state lead cached true false)

take_hits-le-misses_example :
    (lm' : LocalMetrics) × ((take leading sinks name_json redis
        (background leading)
        "id:1"
        by_key
        ""
        (state lead cached false false)).2.collector
      ≡ local lm')
    × (lm'.hits ≤ lm'.misses)
    × (lm'.misses ≡ 1)
take_hits-le-misses_example =
    take_hits-le-misses name_json redis (background leading) "id:1" by_key ""
      (state lead cached false false) new_local_metrics refl (omega arith) (omega arith)

page_statement_skips_example :
    let q = page_statement none (pos 3) (pos 20) "id DESC" in
    (q.offset ≡ some (pos 40))
    × (q.limit ≡ some (pos 20))
    × (q.wheres ≡ (apply_build none new_statement).wheres)
page_statement_skips_example =
    page_statement_skips none 2 20 "id DESC" (omega arith) (omega arith) (omega arith)
