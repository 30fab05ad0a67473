-- ===== src/Cache/CachedDb/Index.antt =====
-- QueryRowIndex of internal/pkg/cache/cached_db.go against the row that its index query finds.
use kratos_layout_monolith.Prelude.{
  String, true, false, Option, none, some, ◌≡◌, ◌≢◌, ◌⊎◌, inl, inr, refl, sym, ap, ◌∙◌, str_eq,
  eq_iff, Bool-cases,
}
use mathlib.Core.Bool.{false≢true}
use kratos_layout_monolith.Prelude.Int.{◌+ℤ◌}
use kratos_layout_monolith.Errors.{Error, not_found, Result, ok, err, Done, errors_is, Result-cases}
use kratos_layout_monolith.External.Redis.{Externals, Json, lead}
use kratos_layout_monolith.Cache.Metrics.Collector.{Sinks}
use kratos_layout_monolith.Cache.State.{
  Redis, State, Context, count_db_op, count_single_flight, count_miss,
}
use kratos_layout_monolith.Cache.Commands.{placeholder, cache_get}
use kratos_layout_monolith.Cache.Commands.Frame.{cache_get-ne-err}
use kratos_layout_monolith.Cache.Coherence.{
  NetLaws, Image, cache_get_image, Holds, cache_get-Holds, cache_set-Holds,
  cache_set_not_found-Holds,
}
use kratos_layout_monolith.Cache.Take.{Query, bytes_of}
use kratos_layout_monolith.Cache.Take.Spec.{
  JsonLaws, entry_of, Reads, FromQuery, Answer, SharesSound, str_ne, entry_is_row,
  placeholder_is_none,
}
use kratos_layout_monolith.Cache.Take.Transparent.{take-Answer}
use kratos_layout_monolith.Cache.CachedDb.{
  IndexQuery, Found, safe_gap, finish_index, store_index, run_index_query, load_index,
  cache_take_with_index, query_row_index, after_index,
}

-- The index query finds the row and its key, and leaves the database alone.
pub record Finds {V D : Type 0} (query : IndexQuery V D) (key_of : V → String) (truth : Option V)
    (db : D) : Type 0 where
  pub keeps : (w : V) → (query w db).2 ≡ db
  pub finds :
      (w : V) {pk : String}
      → (query w db).0 ≡ ok pk
      → (truth ≡ some (query w db).1) × (pk ≡ key_of (query w db).1)
  pub misses :
      (w : V) (e : Error) → (query w db).0 ≡ err e → errors_is e not_found ≡ true → truth ≡ none

abbrev pub FromIndex : {V D : Type 0} → IndexQuery V D → D → Error → Type 0
FromIndex {V} query db e = (w : V) × ((query w db).0 ≡ err e)

-- The answer to a lookup by an index: the row, or that there is none, or an error of a query.
abbrev pub IndexAnswer :
    {V D : Type 0} → IndexQuery V D → Query V D → Option V → D → Done → V → Type 0
IndexAnswer iq q truth db (ok _) v = truth ≡ some v
IndexAnswer iq q truth db (err e) v =
    ((e ≡ not_found) × (truth ≡ none)) ⊎ (FromQuery q db e ⊎ FromIndex iq db e)

-- What cacheTakeWithIndex may hand on: the key of the row, and the row itself where it says so.
abbrev IsRight : {V D : Type 0} → IndexQuery V D → (V → String) → Option V → D → Found → V → Type 0
IsRight {V} iq key_of truth db (ok (pk, fresh)) dest =
    (v : V) × (truth ≡ some v) × (pk ≡ key_of v) × (fresh ≡ true → dest ≡ v)
IsRight iq key_of truth db (err e) dest = ((e ≡ not_found) × (truth ≡ none)) ⊎ FromIndex iq db e

-- The entry of the index, and the entry of the row under its own key.
pub record IndexImage {V : Type 0} (image : Image) (key : String) (key_of encode : V → String)
    (truth : Option V) : Type 0 where
  pub at_index : image key ≡ some (entry_of key_of truth)
  pub at_row : (v : V) → truth ≡ some v → image (key_of v) ≡ some (encode v)
  pub ne_placeholder : (v : V) → key_of v ≢ placeholder

-- The outcome of the index query, at a database equal to `db`.
record Outcome {V D : Type 0} (iq : IndexQuery V D) (key_of : V → String) (truth : Option V)
    (db : D) (q : Result String) (dest : V) : Type 0 where
  there : (pk : String) → q ≡ ok pk → (truth ≡ some dest) × (pk ≡ key_of dest)
  failed : (e : Error) → q ≡ err e → FromIndex iq db e
  missing : (e : Error) → q ≡ err e → errors_is e not_found ≡ true → truth ≡ none

Outcome-query :
    {V D : Type 0} {iq : IndexQuery V D} {key_of : V → String} {truth : Option V} {db : D} (w : V)
    (here : D)
    → here ≡ db
    → Finds iq key_of truth db
    → let (q, v, _) = iq w here in Outcome iq key_of truth db q v
Outcome-query w here e reads =
    rw e
      (record { there = λ pk p. reads.finds w p; failed = λ f p. (w, p); missing = reads.misses w })

module _ {x : Externals} {m : Sinks} {V D : Type 0} {j : Json V} (jl : JsonLaws j)
    (laws : NetLaws x) (image : Image) (r : Redis) (ctx : Context x) (key : String)
    (iq : IndexQuery V D) (key_of : V → String) (truth : Option V) (db : D)
    (images : IndexImage image key key_of jl.encode truth) where
  store_index-IsRight :
      (q : Result String) (dest : V) (s : State x m D)
      → Holds laws image db s
      → Outcome iq key_of truth db q dest
      → let (shared, s') = store_index x m j r ctx key q dest s in
        IsRight iq key_of truth db (finish_index shared) dest × Holds laws image db s'
  unfolding store_index finish_index
  store_index-IsRight (ok pk) dest s h o =
      let (there, is_key) = o.there pk refl in
      let e : bytes_of (j.marshal dest) ≡ jl.encode dest = rw (jl.marshals dest) refl in
      let index_right : image key ≡ some pk = images.at_index ∙ rw (there, is_key) refl in
      let row_right : image pk ≡ some (bytes_of (j.marshal dest)) =
        rw (is_key, e) (images.at_row dest there) in
      let h1 = cache_set-Holds laws image db r ctx key pk r.expiry s index_right h in
      (
        (dest, there, is_key, λ _. refl),
        cache_set-Holds laws image db r ctx pk _ (r.expiry +ℤ safe_gap) _ row_right h1,
      )
  store_index-IsRight (err e) dest s h o = elim (Bool-cases (errors_is e not_found)) [
    | inl gone ↦
        let t : truth ≡ none = o.missing e refl gone in
        rw gone (
          inl (refl, t),
          cache_set_not_found-Holds laws image db r ctx key s (images.at_index ∙ rw t refl) h,
        )
    | inr other ↦ rw other (inr (o.failed e refl), h)
  ]

  module _ (finds : Finds iq key_of truth db) where
    -- No call for the index key is under way.
    load_index-IsRight :
        (dest : V) (s : State x m D)
        → (x.join key s.flights).0 ≡ lead
        → Holds laws image db s
        → let (found, v, s') = load_index x m j r ctx key iq dest s in
          IsRight iq key_of truth db found v × Holds laws image db s'
    unfolding load_index run_index_query
    load_index-IsRight dest s leads h =
        let s0 = record s { flights = (x.join key s.flights).1 } in
        let s1 = count_single_flight x m key (count_db_op x m key s0) in
        let (q, dest1, db1) = iq dest s.db in
        rw (leads, load_index)
          (store_index-IsRight q dest1 (record s1 { db = db1 }) (h.0, rw (h.1) (finds.keeps dest))
            (Outcome-query dest s.db h.1 finds))

    cache_take_with_index-IsRight :
        (dest : V) (s : State x m D)
        → ((f : x.Flights) → (x.join key f).0 ≡ lead)
        → Holds laws image db s
        → let (found, v, s') = cache_take_with_index x m j r ctx dest key iq s in
          IsRight iq key_of truth db found v × Holds laws image db s'
    unfolding cache_take_with_index
    cache_take_with_index-IsRight dest s leads h =
        let s0 = count_miss x m key s in
        let (got, s1) = cache_get x m r ctx key s0 in
        let h1 = cache_get-Holds laws image db r ctx key s0 h in
        elim (Result-cases (cache_get x m r ctx key s0).0) [
          | inl (d, got) ↦ elim (Bool-cases (str_eq d "")) [
            | inl empty ↦
                rw (got, empty, cache_take_with_index)
                  (load_index-IsRight dest s1 (leads s1.flights) h1)
            | inr full ↦
                let right = cache_get_image laws image r ctx s0 h.0 key got (str_ne d "" full) in
                elim (Bool-cases (str_eq d placeholder)) [
                  | inl star ↦
                      rw (got, full, star, cache_take_with_index)
                        (
                          inl (
                            refl,
                            placeholder_is_none key_of truth images.ne_placeholder (
                                sym images.at_index
                                ∙ right
                                ∙ ap some ((eq_iff d placeholder).0 star)),
                          ),
                          h1,
                        )
                  | inr other ↦
                      let (v, there, is_key) =
                        entry_is_row key_of truth d (sym images.at_index ∙ right)
                          (str_ne d placeholder other) in
                      rw (got, full, other, cache_take_with_index)
                        ((v, there, is_key, λ e. absurd (false≢true e)), h1)
                ]
          ]
          | inr (e, failed) ↦ absurd (cache_get-ne-err r ctx s0 key failed)
        ]

    module _ (query : Query V D) (reads : Reads query truth db)
        (shares : (v : V)
          → truth ≡ some v
          → SharesSound x (key_of v) jl.encode query truth db) where
      after_index-Answer :
          (found : Found) (dest : V) (s : State x m D)
          → IsRight iq key_of truth db found dest
          → Holds laws image db s
          → let (e, v, s') = after_index x m j r ctx query found dest s in
            IndexAnswer iq query truth db e v × Holds laws image db s'
      unfolding after_index
      after_index-Answer (err e) dest s (inl gone) h = (inl gone, h)
      after_index-Answer (err e) dest s (inr failed) h = (inr (inr failed), h)
      after_index-Answer (ok (pk, true)) dest s (v, there, is_key, filled) h =
          (there ∙ ap some (sym (filled refl)), h)
      after_index-Answer (ok (pk, false)) dest s (v, there, is_key, filled) h =
          let at_row : image pk ≡ some (entry_of jl.encode truth) =
            rw (is_key, there) (images.at_row v there) in
          let (answer, h1) =
            take-Answer jl laws image r ctx pk query truth db at_row reads
              (rw is_key (shares v there)) dest s h in
          (weaken _ _ answer, h1)
        where
          weaken :
              (e : Done) (w : V) → Answer query truth db e w → IndexAnswer iq query truth db e w
          weaken (ok _) w a = a
          weaken (err e) w (inl a) = inl a
          weaken (err e) w (inr a) = inr (inl a)

      -- QueryRowIndex answers with the row of the unique index, with not found where there is none, or
      -- with an error of a query, and leaves right entries, from right entries, where no other call for
      -- the index key is under way and what singleflight shares for the row's own key is right.
      pub query_row_index-Answer :
          (dest : V) (s : State x m D)
          → ((f : x.Flights) → (x.join key f).0 ≡ lead)
          → Holds laws image db s
          → let (e, v, s') = query_row_index x m j r ctx dest key iq query s in
            IndexAnswer iq query truth db e v × Holds laws image db s'
      unfolding query_row_index
      query_row_index-Answer dest s leads h =
          let (right, h1) = cache_take_with_index-IsRight dest s leads h in
          let (found, dest1, s1) = cache_take_with_index x m j r ctx dest key iq s in
          after_index-Answer found dest1 s1 right h1
