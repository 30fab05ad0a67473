-- ===== src/Tests/World.antt =====
-- A Redis server in memory, whole numbers for floats, and a breaker that is a switch.
use kratos_layout_monolith.Prelude.{
  String, Bool, true, false, Option, none, some, List, [], ◌∷◌, ◌≡◌, ◌⊎◌, inl, inr, str_eq, eq_iff,
  if◌then◌else◌, arith, Bool-cases,
}
use kratos_layout_monolith.Prelude.Int.{ℤ, pos, ◌+ℤ◌, ◌-ℤ◌, ◌*ℤ◌, ltb_ℤ}
use kratos_layout_monolith.Errors.{Error, redis_nil, opaque, Result, ok, err, Done}
use kratos_layout_monolith.External.Float.{Floats}
use kratos_layout_monolith.External.Redis.{Externals, Role}
use kratos_layout_monolith.Cache.Metrics.Collector.{Sinks}
use kratos_layout_monolith.Cache.Coherence.{NetLaws, Among}

abbrev pub whole_floats : Floats
whole_floats = record {
  F = ℤ;
  of_int = λ n. n;
  trunc = λ n. n;
  round = λ n. n;
  times = λ a b. a *ℤ b;
  over = λ a b. a;
  minus = λ a b. a -ℤ b;
  plus = λ a b. a +ℤ b;
  lt = ltb_ℤ;
  five_percent = pos 0;
  seconds = λ d. d;
}

-- A server that is down answers every command with an error.
pub record Server : Type 0 where
  pub down : Bool
  pub store : String → Option String

abbrev pub has : String → List String → Bool
has k [] = false
has k (j ∷ ks) = if str_eq k j then true else has k ks

abbrev reply : Option String → Result String
reply none = err redis_nil
reply (some d) = ok d

abbrev put : String → String → (String → Option String) → String → Option String
put k v store i = if str_eq i k then some v else store i

abbrev pub drop : List String → (String → Option String) → String → Option String
drop ks store i = if has i ks then none else store i

abbrev pub unreachable : Error
unreachable = opaque "connection refused"

abbrev server_get : String → Server → Result String × Server
server_get k n = if n.down then (err unreachable, n) else (reply (n.store k), n)

abbrev server_set : String → String → Server → Done × Server
server_set k v n =
    if n.down then (err unreachable, n) else (ok tt, record n { store = put k v n.store })

abbrev server_set_nx : String → String → Server → Result Bool × Server
server_set_nx k v n = if n.down then (err unreachable, n) else elim (n.store k) [
  | none ↦ (ok true, record n { store = put k v n.store })
  | some _ ↦ (ok false, n)
]

abbrev server_del : List String → Server → Done × Server
server_del ks n =
    if n.down then (err unreachable, n) else (ok tt, record n { store = drop ks n.store })

-- Every call to singleflight has the role that is given; the breaker is open where it is true.
abbrev pub world : Role → Externals
world role = record {
  floats = whole_floats;
  Rng = Unit;
  float_64 = λ g. (pos 0, g);
  Net = Server;
  get = λ ctx k n. server_get k n;
  set = λ ctx k v t n. server_set k v n;
  set_nx = λ ctx k v t n. server_set_nx k v n;
  del = λ ctx ks n. server_del ks n;
  ping = λ ctx n. (if n.down then err unreachable else ok tt, n);
  sleep = λ ctx d n. (true, n);
  Breaker = Bool;
  allow = λ b. (if b then some (opaque "circuit breaker is open") else none, b);
  mark_success = λ b. b;
  mark_failed = λ b. b;
  Flights = Unit;
  join = λ key f. (role, f);
  leave = λ key shared f. f;
}

abbrev pub sinks : Sinks
sinks = record {
  Vectors = List (String × String);
  inc = λ name k v. (name, k) ∷ v;
  Log = List (String × String);
  infof = λ format k l. (format, k) ∷ l;
  warnf = λ format k l. (format, k) ∷ l;
}

-- The server without some keys.
abbrev pub removed : List String → Server → Server
removed ks n = record n { store = drop ks n.store }

pub named_is_had : (k : String) (ks : List String) → Among k ks → has k ks ≡ true
named_is_had k [] named = absurd named
named_is_had k (j ∷ ks) (inl e) = ground (arith, eq_iff k j)
named_is_had k (j ∷ ks) (inr h) = ground (arith, named_is_had k ks h)

put_keeps :
    (k v : String) (store : String → Option String) (i d : String)
    → put k v store i ≡ some d
    → (store i ≡ some d) ⊎ ((i ≡ k) × (d ≡ v))
put_keeps k v store i d h = elim (Bool-cases (str_eq i k)) [
  | inl e ↦ inr ((eq_iff i k).0 e, ground arith)
  | inr e ↦ inl (ground arith)
]

pub get_reads :
    (k : String) (n : Server) (d : String) → (server_get k n).0 ≡ ok d → n.store k ≡ some d
get_reads k n d h = ground arith

pub get_keeps :
    (k : String) (n : Server) (i d : String)
    → (server_get k n).1.store i ≡ some d
    → n.store i ≡ some d
get_keeps k n i d h = ground arith

pub set_keeps :
    (k v : String) (n : Server) (i d : String)
    → (server_set k v n).1.store i ≡ some d
    → (n.store i ≡ some d) ⊎ ((i ≡ k) × (d ≡ v))
set_keeps k v n i d h = ground (arith, put_keeps k v n.store i d)

pub set_nx_keeps :
    (k v : String) (n : Server) (i d : String)
    → (server_set_nx k v n).1.store i ≡ some d
    → (n.store i ≡ some d) ⊎ ((i ≡ k) × (d ≡ v))
set_nx_keeps k v n i d h = ground (arith, put_keeps k v n.store i d)

pub del_keeps :
    (ks : List String) (n : Server) (i d : String)
    → (server_del ks n).1.store i ≡ some d
    → n.store i ≡ some d
del_keeps ks n i d h = ground arith

pub del_drops :
    (ks : List String) (n : Server) (i : String)
    → (server_del ks n).0 ≡ ok tt
    → has i ks ≡ true
    → (server_del ks n).1.store i ≡ none
del_drops ks n i h named = ground arith

pub drop_keeps :
    (ks : List String) (n : Server) (i d : String)
    → (removed ks n).store i ≡ some d
    → n.store i ≡ some d
drop_keeps ks n i d h = ground arith

pub drop_drops :
    (ks : List String) (n : Server) (i : String) → Among i ks → (removed ks n).store i ≡ none
drop_drops ks n i named = ground (arith, named_is_had i ks named)

abbrev pub world_laws : (role : Role) → NetLaws (world role)
world_laws role = record {
  contents = λ n k. n.store k;
  get_reads = λ ctx k n {d} h. get_reads k n d h;
  get_keeps = λ ctx k n i d h. get_keeps k n i d h;
  set_keeps = λ ctx k v t n i d h. set_keeps k v n i d h;
  set_nx_keeps = λ ctx k v t n i d h. set_nx_keeps k v n i d h;
  del_keeps = λ ctx ks n i d h. del_keeps ks n i d h;
  del_drops = λ ctx ks n i h named. del_drops ks n i h (named_is_had i ks named);
}
