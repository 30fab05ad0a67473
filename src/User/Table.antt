-- ===== src/User/Table.antt =====
-- The table `users` as gorm and MySQL document it: what the conditions select, what an update
-- assigns, and what the statements of the repository return.
use kratos_layout_monolith.Prelude.{
  ℕ, suc, String, Bool, true, false, ◌&&◌, Option, none, some, List, [], ◌∷◌, ◌++◌, map, ◌≡◌,
  str_eq, ◌==◌, if◌then◌else◌,
}
use kratos_layout_monolith.Prelude.Int.{ℤ, pos, negsuc, ltb_ℤ}
use kratos_layout_monolith.Errors.{Error, not_found, record_not_found, ok, err, errors_is}
use kratos_layout_monolith.External.Gorm.{
  Gorm, Cond, by_id, version_is, del_state_is, status_is, id_below, id_above, column_is, Value,
  text, int, time,
}
use kratos_layout_monolith.User.Model.{Times, Row, BaseModel}

abbrev pub eq_ℤ : ℤ → ℤ → Bool
eq_ℤ (pos a) (pos b) = a == b
eq_ℤ (negsuc a) (negsuc b) = a == b
eq_ℤ _ _ = false

module _ {T : Type 0} where
  -- The text columns that the repository selects by.
  abbrev pub text_column : String → Row T → String
  text_column name row = if str_eq name "username" then row.username else row.email

  abbrev pub matches : Cond → Row T → Bool
  matches (by_id i) row = eq_ℤ row.id i
  matches (version_is v) row = eq_ℤ row.version v
  matches (del_state_is n) row = eq_ℤ row.del_state n
  matches (status_is n) row = eq_ℤ row.status n
  matches (id_below i) row = ltb_ℤ row.id i
  matches (id_above i) row = ltb_ℤ i row.id
  matches (column_is name v) row = str_eq (text_column name row) v

  abbrev pub all_match : List Cond → Row T → Bool
  all_match [] row = true
  all_match (cond ∷ conds) row = matches cond row && all_match conds row

  abbrev pub first_match : List Cond → List (Row T) → Option (Row T)
  first_match conds [] = none
  first_match conds (row ∷ rows) = if all_match conds row then some row else first_match conds rows

  abbrev pub count_match : List Cond → List (Row T) → ℕ
  count_match conds [] = 0
  count_match conds (row ∷ rows) =
      if all_match conds row then suc (count_match conds rows) else count_match conds rows

  abbrev with_base : (BaseModel T → BaseModel T) → Row T → Row T
  with_base f row = record row { base_model = f row.base_model }

  -- `SET name = value` on one row.
  abbrev assign_text : String → String → Row T → Row T
  assign_text name v row =
      if str_eq name "username"
      then record row { username = v }
      else if str_eq name "email"
      then record row { email = v }
      else if str_eq name "phone"
      then record row { phone = v }
      else if str_eq name "nickname"
      then record row { nickname = v }
      else if str_eq name "avatar"
      then record row { avatar = v }
      else row

  abbrev assign_int : String → ℤ → Row T → Row T
  assign_int name n row =
      if str_eq name "status"
      then record row { status = n }
      else if str_eq name "version"
      then with_base (λ b. record b { version = n }) row
      else if str_eq name "del_state"
      then with_base (λ b. record b { del_state = n }) row
      else row

  abbrev assign_time : String → T → Row T → Row T
  assign_time name t row =
      if str_eq name "deleted_at"
      then with_base (λ b. record b { deleted_at = some t }) row
      else row

  abbrev pub assign : List (String × Value T) → Row T → Row T
  assign [] row = row
  assign ((name, text v) ∷ rest) row = assign rest (assign_text name v row)
  assign ((name, int n) ∷ rest) row = assign rest (assign_int name n row)
  assign ((name, time t) ∷ rest) row = assign rest (assign_time name t row)

  -- gorm stamps every row that it updates.
  abbrev pub stamp : T → Row T → Row T
  stamp t row = with_base (λ b. record b { updated_at = t }) row

  abbrev pub updated : List Cond → List (String × Value T) → T → Row T → Row T
  updated conds columns t row = if all_match conds row then stamp t (assign columns row) else row

-- Rows whose texts in the columns that the repository selects by are plain.
abbrev pub Plain : {T : Type 0} → (String → Bool) → List (Row T) → Type 0
Plain is_plain [] = Unit
Plain is_plain (row ∷ rows) =
    (is_plain row.username ≡ true) × (is_plain row.email ≡ true) × Plain is_plain rows

-- Conditions that compare plain texts, so that the collation tells what equality tells.
abbrev pub ExactOn : {T : Type 0} → (String → Bool) → List Cond → List (Row T) → Type 0
ExactOn is_plain [] rows = Unit
ExactOn is_plain (column_is name v ∷ conds) rows =
    (is_plain v ≡ true) × Plain is_plain rows × ExactOn is_plain conds rows
ExactOn is_plain (by_id i ∷ conds) rows = ExactOn is_plain conds rows
ExactOn is_plain (version_is v ∷ conds) rows = ExactOn is_plain conds rows
ExactOn is_plain (del_state_is n ∷ conds) rows = ExactOn is_plain conds rows
ExactOn is_plain (status_is n ∷ conds) rows = ExactOn is_plain conds rows
ExactOn is_plain (id_below i ∷ conds) rows = ExactOn is_plain conds rows
ExactOn is_plain (id_above i ∷ conds) rows = ExactOn is_plain conds rows

-- `rows` is the table in the order of its primary key. The text columns have the collation
-- utf8mb4_unicode_ci of migrations/000001_create_users_table.up.sql, under which texts can be equal
-- that differ; `is_plain` picks texts of which no two are, such as those of small letters and digits.
pub record TableLaws (c : Times) (g : Gorm (Row c.Time) c.Time) : Type 0 where
  pub rows : g.D → List (Row c.Time)
  pub is_plain : String → Bool
  pub first_keeps : (conds : List Cond) (w : Row c.Time) (d : g.D) → (g.first conds w d).2 ≡ d
  pub first_finds :
      (conds : List Cond) (w : Row c.Time) (d : g.D)
      → ExactOn is_plain conds (rows d)
      → (g.first conds w d).0 ≡ ok tt
      → first_match conds (rows d) ≡ some (g.first conds w d).1
  pub first_misses :
      (conds : List Cond) (w : Row c.Time) (d : g.D) (e : Error)
      → ExactOn is_plain conds (rows d)
      → (g.first conds w d).0 ≡ err e
      → errors_is e record_not_found ≡ true
      → first_match conds (rows d) ≡ none
  -- gorm knows nothing of the cache's error
  pub first_foreign :
      (conds : List Cond) (w : Row c.Time) (d : g.D) (e : Error)
      → (g.first conds w d).0 ≡ err e
      → errors_is e not_found ≡ false
  pub stamp_of : g.D → c.Time
  pub updates_count :
      (conds : List Cond) (columns : List (String × Value c.Time)) (d : g.D) (n : ℕ)
      → (g.updates conds columns d).0 ≡ ok n
      → n ≡ count_match conds (rows d)
  pub updates_rows :
      (conds : List Cond) (columns : List (String × Value c.Time)) (d : g.D) (n : ℕ)
      → (g.updates conds columns d).0 ≡ ok n
      → rows (g.updates conds columns d).1 ≡ map (updated conds columns (stamp_of d)) (rows d)
  -- a statement that fails changes nothing
  pub updates_failed :
      (conds : List Cond) (columns : List (String × Value c.Time)) (d : g.D) (e : Error)
      → (g.updates conds columns d).0 ≡ err e
      → rows (g.updates conds columns d).1 ≡ rows d
  -- the clock is no part of the table
  pub now_rows : (d : g.D) → rows (g.now d).1 ≡ rows d
  -- a row without an id gets the next one; the other columns are as given
  pub create_rows :
      (row : Row c.Time) (d : g.D)
      → row.id ≡ pos 0
      → (g.create row d).0 ≡ ok tt
      → rows (g.create row d).2 ≡ rows d ++ ((g.create row d).1 ∷ [])
  pub create_id :
      (row : Row c.Time) (d : g.D)
      → row.id ≡ pos 0
      → (g.create row d).0 ≡ ok tt
      → (ltb_ℤ (pos 0) (g.create row d).1.id ≡ true)
        × (first_match (by_id (g.create row d).1.id ∷ []) (rows d) ≡ none)
  pub create_columns :
      (row : Row c.Time) (d : g.D)
      → (g.create row d).0 ≡ ok tt
      → ((g.create row d).1.username ≡ row.username)
        × ((g.create row d).1.email ≡ row.email)
        × ((g.create row d).1.del_state ≡ row.del_state)
  pub create_failed :
      (row : Row c.Time) (d : g.D) (e : Error)
      → (g.create row d).0 ≡ err e
      → rows (g.create row d).2 ≡ rows d

-- A name that a lookup by a text column is asked for: not blank, and plain as the rows are.
abbrev pub Sought :
    {c : Times} (g : Gorm (Row c.Time) c.Time) → TableLaws c g → String → g.D → Type 0
Sought g laws v d =
    (str_eq v "" ≡ false) × (laws.is_plain v ≡ true) × Plain laws.is_plain (laws.rows d)
