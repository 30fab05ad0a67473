-- ===== src/Cache/Take/Transparent.antt =====
-- Take of internal/pkg/cache/cache.go against the row that its query finds.
use kratos_layout_monolith.Prelude.{
  String, true, false, Option, none, some, ◌≡◌, ◌≢◌, inl, inr, refl, sym, ap, ◌∙◌, arith, str_eq,
  eq_iff, Bool-cases,
}
use kratos_layout_monolith.Errors.{Error, not_found, Result, ok, err, Done, errors_is, Result-cases}
use kratos_layout_monolith.External.Redis.{Externals, Json, Shared, row, index}
use kratos_layout_monolith.Cache.Metrics.Collector.{Sinks}
use kratos_layout_monolith.Cache.State.{
  Redis, State, Context, count_db_op, count_single_flight, count_hit, count_miss,
}
use kratos_layout_monolith.Cache.Commands.{placeholder, cache_get}
use kratos_layout_monolith.Cache.Commands.Frame.{cache_get-ne-err}
use kratos_layout_monolith.Cache.Coherence.{
  NetLaws, Image, cache_get_image, Holds, cache_get-Holds, cache_set-Holds,
  cache_set_not_found-Holds,
}
use kratos_layout_monolith.Cache.Take.Spec.{
  JsonLaws, entry_of, Reads, FromQuery, Answer, IsSound, SharesSound, Role-cases, entry_is_row,
  placeholder_is_none, str_ne,
}
use kratos_layout_monolith.Cache.Take.{
  Query, bytes_of, store_row, run_query, finish_row, load, decode, take,
}

-- What the closure learns when the query comes back with `q` and the value `dest`.
record Outcome {V D : Type 0} (query : Query V D) (truth : Option V) (db : D) (q : Done) (dest : V)
    : Type 0 where
  there : q ≡ ok tt → truth ≡ some dest
  failed : (e : Error) → q ≡ err e → FromQuery query db e
  missing : (e : Error) → q ≡ err e → errors_is e not_found ≡ true → truth ≡ none

Outcome-query :
    {V D : Type 0} {query : Query V D} {truth : Option V} {db : D} (w : V) (here : D)
    → here ≡ db
    → Reads query truth db
    → let (q, v, _) = query w here in Outcome query truth db q v
Outcome-query w here e reads =
    rw e (record { there = reads.finds w; failed = λ f p. (w, p); missing = reads.misses w })

module _ {V D : Type 0} {j : Json V} (jl : JsonLaws j) (query : Query V D) (truth : Option V)
    (db : D) where
  finish_row-Answer :
      (shared : Result Shared) (dest : V)
      → IsSound jl.encode query truth db shared
      → let (e, v) = finish_row j shared dest in Answer query truth db e v
  unfolding finish_row
  finish_row-Answer (err e) dest sound = inr sound
  finish_row-Answer (ok (row d true)) dest sound = inl (refl, sound)
  finish_row-Answer (ok (row d false)) dest (v, there, encoded) =
      rw (encoded, jl.round_trip v dest) there
  finish_row-Answer (ok (index _ _)) dest sound = absurd sound

-- Data that decode are the answer.
decode_ok :
    {x : Externals} {m : Sinks} {V D : Type 0} (j : Json V) (r : Redis) (ctx : Context x)
    (key : String) (query : Query V D) (d : String) (dest : V) (s : State x m D) (v : V)
    → j.unmarshal d dest ≡ (ok tt, v)
    → decode x m j r ctx key query d dest s ≡ (ok tt, v, count_hit x m key s)
unfolding decode
decode_ok j r ctx key query d dest s v u = ground arith

module _ {x : Externals} {m : Sinks} {V D : Type 0} {j : Json V} (jl : JsonLaws j)
    (laws : NetLaws x) (image : Image) (r : Redis) (ctx : Context x) (key : String)
    (query : Query V D) (truth : Option V) (db : D)
    (at_key : image key ≡ some (entry_of jl.encode truth)) where
  store_row-IsSound :
      (q : Done) (dest : V) (s : State x m D)
      → Holds laws image db s
      → Outcome query truth db q dest
      → let (shared, _, s') = store_row x m j r ctx key q dest s in
        IsSound jl.encode query truth db shared × Holds laws image db s'
  unfolding store_row
  store_row-IsSound (ok u) dest s h o =
      let e : bytes_of (j.marshal dest) ≡ jl.encode dest = rw (jl.marshals dest) refl in
      let right : image key ≡ some (bytes_of (j.marshal dest)) =
        at_key ∙ rw (o.there refl, e) refl in
      ((dest, o.there refl, e), cache_set-Holds laws image db r ctx key _ r.expiry s right h)
  store_row-IsSound (err e) dest s h o = elim (Bool-cases (errors_is e not_found)) [
    | inl gone ↦
        let t : truth ≡ none = o.missing e refl gone in
        rw gone (t, cache_set_not_found-Holds laws image db r ctx key s (at_key ∙ rw t refl) h)
    | inr other ↦ rw other (o.failed e refl, h)
  ]

  run_query-IsSound :
      (dest : V) (s : State x m D)
      → Reads query truth db
      → Holds laws image db s
      → let (shared, _, s') = run_query x m j r ctx key query dest s in
        IsSound jl.encode query truth db shared × Holds laws image db s'
  unfolding run_query
  run_query-IsSound dest s reads h =
      let s1 = count_single_flight x m key (count_db_op x m key s) in
      let (q, dest1, db1) = query dest s.db in
      store_row-IsSound q dest1 (record s1 { db = db1 }) (h.0, rw (h.1) (reads.keeps dest))
        (Outcome-query dest s.db h.1 reads)

  module _ (reads : Reads query truth db)
      (shares : SharesSound x key jl.encode query truth db) where
    load-Answer :
        (dest : V) (s : State x m D)
        → Holds laws image db s
        → let (e, v, s') = load x m j r ctx key query dest s in
          Answer query truth db e v × Holds laws image db s'
    unfolding load
    load-Answer dest s h = elim (Role-cases (x.join key s.flights).0) [
      | inl leads ↦
          let s0 = record s { flights = (x.join key s.flights).1 } in
          let (shared, dest1, s1) = run_query x m j r ctx key query dest s0 in
          let (sound, holds) = run_query-IsSound dest s0 reads h in
          rw (leads, load) (finish_row-Answer jl query truth db shared dest1 sound, holds)
      | inr (shared, follows) ↦
          rw (follows, load)
            (finish_row-Answer jl query truth db shared dest (shares s.flights shared follows), h)
    ]

    decode-Answer :
        (d : String) (dest : V) (s : State x m D)
        → Holds laws image db s
        → image key ≡ some d
        → d ≢ placeholder
        → let (e, v, s') = decode x m j r ctx key query d dest s in
          Answer query truth db e v × Holds laws image db s'
    decode-Answer d dest s h right ne =
        let (v, there, encoded) = entry_is_row jl.encode truth d (sym at_key ∙ right) ne in
        let u : j.unmarshal d dest ≡ (ok tt, v) =
          ap (λ t. j.unmarshal t dest) encoded ∙ jl.round_trip v dest in
        rw (decode_ok j r ctx key query d dest s v u) (there, h)

    -- From right entries, Take answers with the row, with not found where there is none, or with an
    -- error of the query, and leaves right entries and the database as it was.
    pub take-Answer :
        (dest : V) (s : State x m D)
        → Holds laws image db s
        → let (e, v, s') = take x m j r ctx key query dest s in
          Answer query truth db e v × Holds laws image db s'
    unfolding take
    take-Answer dest s h =
        let s0 = count_miss x m key s in
        let h1 = cache_get-Holds laws image db r ctx key s0 h in
        elim (Result-cases (cache_get x m r ctx key s0).0) [
          | inl (d, got) ↦ elim (Bool-cases (str_eq d "")) [
            | inl empty ↦ rw (got, empty, take) (load-Answer dest _ h1)
            | inr full ↦
                let right = cache_get_image laws image r ctx s0 h.0 key got (str_ne d "" full) in
                elim (Bool-cases (str_eq d placeholder)) [
                  | inl star ↦
                      rw (got, full, star, take)
                        (
                          inl (
                            refl,
                            placeholder_is_none jl.encode truth jl.ne_placeholder
                                (sym at_key ∙ right ∙ ap some ((eq_iff d placeholder).0 star)),
                          ),
                          h1,
                        )
                  | inr other ↦
                      rw (got, full, other, take)
                        (decode-Answer d dest _ h1 right (str_ne d placeholder other))
                ]
          ]
          | inr (e, failed) ↦ absurd (cache_get-ne-err r ctx s0 key failed)
        ]
