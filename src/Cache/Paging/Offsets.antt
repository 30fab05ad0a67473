-- ===== src/Cache/Paging/Offsets.antt =====
-- FindPageListByPage of internal/pkg/cache/cached_db.go: which rows a page selects.
use kratos_layout_monolith.Prelude.{ℕ, suc, ◌*◌, ◌^◌, ◌≤◌, ◌<◌, String, some, ◌≡◌, arith}
use kratos_layout_monolith.Prelude.Int.{pos, ◌-ℤ◌, ◌*ℤ◌}
use kratos_layout_monolith.Prelude.Word.{wrap_32_small}
use kratos_layout_monolith.Cache.Paging.{
  Build, apply_build, new_statement, page_offset, page_statement,
}

minus_one : (p : ℕ) → pos (suc p) -ℤ pos 1 ≡ pos p
unfolding ◌-ℤ◌
minus_one p = ground arith

product : (p n : ℕ) → pos p *ℤ pos n ≡ pos (p * n)
unfolding ◌*ℤ◌
product p n = ground arith

page_offset_lem :
    (p n : ℕ) → p < 2 ^ 31 → p * n < 2 ^ 31 → page_offset (pos (suc p)) (pos n) ≡ pos (p * n)
unfolding page_offset
page_offset_lem p n small fits =
    rw (minus_one p, wrap_32_small p small, product p n) (wrap_32_small (p * n) fits)

-- A page after `p` others, of a positive size `n`, skips the `p * n` rows of those and takes `n`,
-- as long as that number fits int32, and selects by the conditions of the caller alone.
pub page_statement_skips :
    (build : Build) (p n : ℕ) (by : String)
    → p < 2 ^ 31
    → 1 ≤ n
    → p * n < 2 ^ 31
    → let q = page_statement build (pos (suc p)) (pos n) by in
      (q.offset ≡ some (pos (p * n)))
      × (q.limit ≡ some (pos n))
      × (q.wheres ≡ (apply_build build new_statement).wheres)
unfolding page_statement
page_statement_skips build p n by small positive fits =
    let here = page_offset_lem p n small fits in (ground arith, ground arith, ground arith)
