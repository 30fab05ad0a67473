-- ===== src/Tests/Table.antt =====
-- A table in memory, with one user, whose text columns compare without regard to case.
use kratos_layout_monolith.Prelude.{
  ltb, ◌≤◌, ℕ, suc, ◌*◌, true, false, Option, none, some, List, [], ◌∷◌, ◌++◌, map, ◌≡◌, refl, sym,
  ◌∙◌, if◌then◌else◌, arith,
}
use kratos_layout_monolith.Prelude.Int.{pos_part, ltb_ℤ, pos}
use kratos_layout_monolith.Errors.{
  Error, not_found, record_not_found, opaque, Result, ok, err, Done, errors_is,
}
use kratos_layout_monolith.External.Gorm.{Gorm, Cond, by_id}
use kratos_layout_monolith.Cache.State.{Redis, second}
use kratos_layout_monolith.User.Model.{Times, Row}
use kratos_layout_monolith.Tests.Collation.{is_small, first_fold, first_fold-eq}
use kratos_layout_monolith.User.Table.{TableLaws, first_match, all_match, count_match, updated}

abbrev pub clock : Times
clock = record {
  Time = ℕ;
  format = λ t. "2024-01-01 00:00:00";
  parse_in_location = λ s. err (opaque "parsing time");
  zero_time = 0;
}

abbrev pub Rows : Type 0
Rows = List (Row ℕ)

abbrev pub found : Option (Row ℕ) → Row ℕ → Rows → Done × Row ℕ × Rows
found none w rows = (err record_not_found, w, rows)
found (some row) w rows = (ok tt, row, rows)

pub found_keeps : (o : Option (Row ℕ)) (w : Row ℕ) (d : Rows) → (found o w d).2 ≡ d
found_keeps none w d = refl
found_keeps (some row) w d = refl

pub found_finds :
    (o : Option (Row ℕ)) (w : Row ℕ) (d : Rows) → (found o w d).0 ≡ ok tt → o ≡ some (found o w d).1
found_finds none w d h = cc
found_finds (some row) w d h = refl

pub found_misses :
    (o : Option (Row ℕ)) (w : Row ℕ) (d : Rows) (e : Error) → (found o w d).0 ≡ err e → o ≡ none
found_misses none w d e h = refl
found_misses (some row) w d e h = cc

pub found_foreign :
    (o : Option (Row ℕ)) (w : Row ℕ) (d : Rows) (e : Error)
    → (found o w d).0 ≡ err e
    → errors_is e not_found ≡ false
found_foreign none w d e h = ground arith
found_foreign (some row) w d e h = cc

-- The greatest id so far.
abbrev pub top : Rows → ℕ
top [] = 0
top (row ∷ rows) = if ltb (top rows) (pos_part row.id) then pos_part row.id else top rows

abbrev pub numbered : ℕ → Row ℕ → Row ℕ
numbered n row = record row { base_model = record (row.base_model) { id = pos n } }

abbrev pub insert : Row ℕ → Rows → Done × Row ℕ × Rows
insert row rows =
    (ok tt, numbered (suc (top rows)) row, rows ++ (numbered (suc (top rows)) row ∷ []))

above_top :
    (rows : Rows) (n : ℕ) → top rows ≤ n → first_match (by_id (pos (suc n)) ∷ []) rows ≡ none
above_top [] n h = refl
above_top (row ∷ rows) n h = let rest = above_top rows n (ground arith) in ground arith

pub next_is_fresh : (rows : Rows) → first_match (by_id (pos (suc (top rows))) ∷ []) rows ≡ none
next_is_fresh rows = above_top rows (top rows) (omega arith)

abbrev pub matching : List Cond → Rows → Rows
matching conds [] = []
matching conds (row ∷ rows) =
    let rest = matching conds rows in if all_match conds row then row ∷ rest else rest

abbrev pub table : Gorm (Row ℕ) ℕ
table = record {
  D = Rows;
  first = λ conds w rows. found (first_fold conds rows) w rows;
  create = insert;
  updates = λ conds columns rows. (ok (count_match conds rows), map (updated conds columns 7) rows);
  count = λ st rows. (ok (pos (count_match st.wheres rows)), rows);
  find = λ st rows. (ok (matching st.wheres rows), rows);
  now = λ rows. (7, rows);
}

pub counted : (n k : ℕ) → ◌≡◌ {A = Result ℕ} (ok k) (ok n) → n ≡ k
counted n k h = cc

pub never : {A : Type 0} (k : ℕ) (e : Error) → ◌≡◌ {A = Result ℕ} (ok k) (err e) → A
never k e h = cc

pub positive : (n : ℕ) → ltb_ℤ (pos 0) (pos (suc n)) ≡ true
positive n = ground arith

pub created_never : {A : Type 0} (e : Error) → ◌≡◌ {A = Done} (ok tt) (err e) → A
created_never e h = cc

abbrev pub table_laws : TableLaws clock table
table_laws = record {
  rows = λ d. d;
  is_plain = is_small;
  first_keeps = λ conds w d. found_keeps (first_fold conds d) w d;
  first_finds = λ conds w d exact h.
      sym (first_fold-eq conds d exact) ∙ found_finds (first_fold conds d) w d h;
  first_misses = λ conds w d e exact h is.
      sym (first_fold-eq conds d exact) ∙ found_misses (first_fold conds d) w d e h;
  first_foreign = λ conds w d e h. found_foreign (first_fold conds d) w d e h;
  stamp_of = λ d. 7;
  updates_count = λ conds columns d n h. counted n (count_match conds d) h;
  updates_rows = λ conds columns d n h. refl;
  updates_failed = λ conds columns d e h. never (count_match conds d) e h;
  now_rows = λ d. refl;
  create_rows = λ row d unset h. refl;
  create_id = λ row d unset h. (positive (top d), next_is_fresh d);
  create_columns = λ row d h. (refl, refl, refl);
  create_failed = λ row d e h. created_never e h;
}

abbrev pub alice : Row ℕ
alice = record {
  base_model = record {
    id = pos 1;
    del_state = pos 0;
    deleted_at = none;
    version = pos 4;
    created_at = 5;
    updated_at = 6;
  };
  username = "alice";
  password = "secret";
  email = "alice@example.com";
  phone = "123";
  nickname = "Al";
  avatar = "";
  status = pos 1;
}

abbrev pub redis : Redis
redis = record {
  has_client = true;
  expiry = pos (60 * second);
  not_found_expiry = pos (60 * second);
}
