-- ===== src/Cache/Take/Spec.antt =====
-- What a query and the JSON coding promise, and what an answer of Take is.
use kratos_layout_monolith.Prelude.{
  String, true, false, Option, none, some, ◌≡◌, ◌≢◌, ◌⊎◌, inl, inr, refl, sym, arith, str_eq,
  eq_iff,
}
use mathlib.Core.Option.{some-injective}
use kratos_layout_monolith.Errors.{Error, not_found, Result, ok, err, Done, errors_is}
use kratos_layout_monolith.External.Redis.{Externals, Json, Shared, row, index, Role, lead, follow}
use kratos_layout_monolith.Cache.Commands.{placeholder}
use kratos_layout_monolith.Cache.Take.{Query}

-- encoding/json at a struct whose fields are all exported and none is skipped when empty.
pub record JsonLaws {V : Type 0} (j : Json V) : Type 0 where
  pub encode : V → String
  pub marshals : (v : V) → j.marshal v ≡ ok (encode v)
  pub round_trip : (v w : V) → j.unmarshal (encode v) w ≡ (ok tt, v)
  pub ne_placeholder : (v : V) → encode v ≢ placeholder
  pub ne_empty : (v : V) → encode v ≢ ""

-- The entry for a row that is there or not.
abbrev pub entry_of : {V : Type 0} → (V → String) → Option V → String
entry_of encode none = placeholder
entry_of encode (some v) = encode v

-- The query reads the row `truth` and leaves the database alone.
pub record Reads {V D : Type 0} (query : Query V D) (truth : Option V) (db : D) : Type 0 where
  pub keeps : (w : V) → (query w db).2 ≡ db
  pub finds : (w : V) → (query w db).0 ≡ ok tt → truth ≡ some (query w db).1
  pub misses :
      (w : V) (e : Error) → (query w db).0 ≡ err e → errors_is e not_found ≡ true → truth ≡ none

-- The error comes from the query.
abbrev pub FromQuery : {V D : Type 0} → Query V D → D → Error → Type 0
FromQuery {V} query db e = (w : V) × ((query w db).0 ≡ err e)

-- The answer that a caller gets: the row, or that there is none, or an error of the query.
abbrev pub Answer : {V D : Type 0} → Query V D → Option V → D → Done → V → Type 0
Answer query truth db (ok _) v = truth ≡ some v
Answer query truth db (err e) v = ((e ≡ not_found) × (truth ≡ none)) ⊎ FromQuery query db e

-- The result that a singleflight call may hand to those that wait for it.
abbrev pub IsSound :
    {V D : Type 0} → (V → String) → Query V D → Option V → D → Result Shared → Type 0
IsSound {V} encode query truth db (ok (row d false)) = (v : V) × (truth ≡ some v) × (d ≡ encode v)
IsSound encode query truth db (ok (row d true)) = truth ≡ none
IsSound encode query truth db (ok (index _ _)) = ⊥
IsSound encode query truth db (err e) = FromQuery query db e

-- A result that singleflight hands over comes from a call for the same key that began in the
-- same state of the database, so it is one of those that `run_query` makes.
abbrev pub SharesSound :
    {V D : Type 0} → Externals → String → (V → String) → Query V D → Option V → D → Type 0
SharesSound x key encode query truth db =
    (f : x.Flights) (shared : Result Shared)
    → (x.join key f).0 ≡ follow shared
    → IsSound encode query truth db shared

pub Role-cases : (role : Role) → (role ≡ lead) ⊎ ((s : Result Shared) × (role ≡ follow s))
Role-cases lead = inl refl
Role-cases (follow s) = inr (s, refl)

module _ {V : Type 0} (encode : V → String) where
  -- An entry that is not the placeholder is the row's.
  pub entry_is_row :
      (truth : Option V) (d : String)
      → some (entry_of encode truth) ≡ some d
      → d ≢ placeholder
      → (v : V) × (truth ≡ some v) × (d ≡ encode v)
  entry_is_row none d right ne = absurd (ne (sym (some-injective _ _ right)))
  entry_is_row (some v) d right ne = (v, refl, sym (some-injective _ _ right))

  pub placeholder_is_none :
      (truth : Option V)
      → ((v : V) → encode v ≢ placeholder)
      → some (entry_of encode truth) ≡ some placeholder
      → truth ≡ none
  placeholder_is_none none ne right = refl
  placeholder_is_none (some v) ne right = absurd (ne v (some-injective _ _ right))

pub str_ne : (a b : String) → str_eq a b ≡ false → a ≢ b
str_ne a b h = ground (arith, eq_iff a b)
