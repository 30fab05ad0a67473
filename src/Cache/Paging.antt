-- ===== src/Cache/Paging.antt =====
-- internal/pkg/cache/cached_db.go: the queries that go past the cache. A statement is built up and
-- handed to the database; the transaction that a context may carry is not modelled.
pub mod Offsets
pub mod Sums
use kratos_layout_monolith.Prelude.{
  ℕ, String, Option, none, some, List, [], ◌∷◌, ◌++◌, str_eq, if◌then◌else◌,
}
use kratos_layout_monolith.Prelude.Int.{ℤ, pos, ltb_ℤ, ◌-ℤ◌, ◌*ℤ◌}
use kratos_layout_monolith.Prelude.Word.{wrap_32}
use kratos_layout_monolith.Errors.{Result, ok, err}
use kratos_layout_monolith.External.Gorm.{Gorm, Cond, id_below, id_above, Statement}

abbrev pub new_statement : Statement
new_statement = record { wheres = []; order = []; offset = none; limit = none }

-- The callback `build`, which may be nil.
abbrev pub Build : Type 0
Build = Option (Statement → Statement)

abbrev pub apply_build : Build → Statement → Statement
apply_build none q = q
apply_build (some f) q = f q

abbrev pub order_by : String → Statement → Statement
order_by by q = if str_eq by "" then q else record q { order = q.order ++ (by ∷ []) }

abbrev pub add_where : Cond → Statement → Statement
add_where cond q = record q { wheres = q.wheres ++ (cond ∷ []) }

-- A page or a size that is not positive becomes the default.
abbrev pub positive_or : ℤ → ℕ → ℤ
positive_or n d = if ltb_ℤ (pos 0) n then n else pos d

-- int((page - 1) * pageSize), computed in int32
unfoldable pub page_offset : ℤ → ℤ → ℤ
page_offset page size = wrap_32 (wrap_32 (page -ℤ pos 1) *ℤ size)

unfoldable pub page_statement : Build → ℤ → ℤ → String → Statement
unfolding page_offset
page_statement build page size by =
    let p = positive_or page 1 in
    let n = positive_or size 10 in
    let q = order_by by (apply_build build new_statement) in
    record q { offset = some (page_offset p n); limit = some n }

unfoldable pub id_desc_statement : Build → ℤ → ℤ → Statement
id_desc_statement build last_id size =
    let n = positive_or size 10 in
    let q = apply_build build new_statement in
    let q1 = if ltb_ℤ (pos 0) last_id then add_where (id_below last_id) q else q in
    record q1 { order = q1.order ++ ("id DESC" ∷ []); limit = some n }

unfoldable pub id_asc_statement : Build → ℤ → ℤ → Statement
id_asc_statement build last_id size =
    let n = positive_or size 10 in
    let q = apply_build build new_statement in
    let q1 = if ltb_ℤ (pos 0) last_id then add_where (id_above last_id) q else q in
    record q1 { order = q1.order ++ ("id ASC" ∷ []); limit = some n }

module _ {R T : Type 0} (g : Gorm R T) where
  unfoldable pub find_count : Build → g.D → Result ℤ × g.D
  find_count build d = g.count (apply_build build new_statement) d

  unfoldable pub find_all : Build → String → g.D → Result (List R) × g.D
  find_all build by d = g.find (order_by by (apply_build build new_statement)) d

  unfoldable pub find_page_list_by_page : Build → ℤ → ℤ → String → g.D → Result (List R) × g.D
  unfolding page_statement
  find_page_list_by_page build page size by d = g.find (page_statement build page size by) d

  unfoldable pub find_page_list_by_page_with_total :
      Build → ℤ → ℤ → String → g.D → Result (List R × ℤ) × g.D
  unfolding find_count find_page_list_by_page
  find_page_list_by_page_with_total build page size by d =
      let (total, d1) = find_count build d in
      elim total [
        | err e ↦ (err e, d1)
        | ok n ↦
            let (rows, d2) = find_page_list_by_page build page size by d1 in
            elim rows [ err e ↦ (err e, d2) | ok l ↦ (ok (l, n), d2) ]
      ]

  unfoldable pub find_page_list_by_id_desc : Build → ℤ → ℤ → g.D → Result (List R) × g.D
  unfolding id_desc_statement
  find_page_list_by_id_desc build last_id size d = g.find (id_desc_statement build last_id size) d

  unfoldable pub find_page_list_by_id_asc : Build → ℤ → ℤ → g.D → Result (List R) × g.D
  unfolding id_asc_statement
  find_page_list_by_id_asc build last_id size d = g.find (id_asc_statement build last_id size) d
