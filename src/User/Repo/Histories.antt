-- ===== src/User/Repo/Histories.antt =====
-- Calls of the repository one after the other, with entries that Redis drops in between.
use kratos_layout_monolith.Prelude.{String, true, false, some, ◌≡◌, str_eq}
use kratos_layout_monolith.Prelude.Int.{ℤ, pos, ltb_ℤ}
use kratos_layout_monolith.External.Redis.{Externals, Json}
use kratos_layout_monolith.External.Gorm.{Gorm}
use kratos_layout_monolith.Cache.Metrics.Collector.{Sinks}
use kratos_layout_monolith.Cache.State.{Redis, State, Context}
use kratos_layout_monolith.Cache.Coherence.{NetLaws}
use kratos_layout_monolith.Cache.Take.Spec.{JsonLaws}
use kratos_layout_monolith.User.Model.{Times, Row, User}
use kratos_layout_monolith.User.Table.{TableLaws}
use kratos_layout_monolith.User.Keys.{username_index}
use kratos_layout_monolith.User.Repo.{
  get_user_by_id, get_user_by_username, get_user_by_email, create_user, update_user, delete_user,
}
use kratos_layout_monolith.User.Repo.Lookups.{UserAnswer}
use kratos_layout_monolith.User.Repo.Plain.{
  PlainIn, PlainUser, create_user-Plain, update_user-Plain, delete_user-Plain,
}
use kratos_layout_monolith.User.Repo.Consistent.{
  Alone, Consistent, IndexedAnswer, get_user_by_id-Consistent, get_user_by_username-Consistent,
  get_user_by_email-Consistent,
}
use kratos_layout_monolith.User.Repo.ConsistentWrites.{Up}
use kratos_layout_monolith.User.Repo.ConsistentUpdates.{
  update_user-Consistent, delete_user-Consistent,
}
use kratos_layout_monolith.User.Repo.ConsistentCreates.{create_user-Consistent}

-- A name that a lookup is asked for: neither blank nor one that the collation takes for another.
abbrev pub Asked : {c : Times} (g : Gorm (Row c.Time) c.Time) → TableLaws c g → String → Type 0
Asked g laws u = (str_eq u "" ≡ false) × (laws.is_plain u ≡ true)

module _ (c : Times) (g : Gorm (Row c.Time) c.Time) (laws : TableLaws c g) (x : Externals)
    (m : Sinks) (j : Json (Row c.Time)) (net : NetLaws x) (r : Redis) (ctx : Context x) where
  -- One step from `s` to `t`: a call of the repository, or entries that expire.
  pub data Step (s t : State x m g.D) : Type 0 where
    read_by_id :
        (id : ℤ) → ltb_ℤ (pos 0) id ≡ true → t ≡ (get_user_by_id c g x m j r ctx id s).1 → Step s t
    read_by_username :
        (u : String) → Asked g laws u → t ≡ (get_user_by_username c g x m j r ctx u s).1 → Step s t
    read_by_email :
        (a : String) → Asked g laws a → t ≡ (get_user_by_email c g x m j r ctx a s).1 → Step s t
    create :
        (u : User)
        → u.id ≡ pos 0
        → str_eq u.username "" ≡ false
        → str_eq u.email "" ≡ false
        → PlainUser g laws u
        → t ≡ (create_user c g x m j r ctx u s).1
        → Step s t
    update : (u : User) → PlainUser g laws u → t ≡ (update_user c g x m j r ctx u s).1 → Step s t
    delete : (id : ℤ) → t ≡ (delete_user c g x m j r ctx id s).1 → Step s t
    expire :
        (n : x.Net)
        → ((k d : String) → net.contents n k ≡ some d → net.contents s.net k ≡ some d)
        → t ≡ record s { net = n }
        → Step s t

  pub data Reach (s : State x m g.D) : State x m g.D → Type 0 where
    here : Reach s s
    next : {t u : State x m g.D} → Reach s t → Step t u → Reach s u

module _ {c : Times} (g : Gorm (Row c.Time) c.Time) (laws : TableLaws c g) {x : Externals}
    {m : Sinks} {j : Json (Row c.Time)} (jl : JsonLaws j) (net : NetLaws x) (r : Redis)
    (ctx : Context x) (alone : Alone x) (up : Up x r ctx) where
  -- What holds between two steps.
  abbrev pub Right : State x m g.D → Type 0
  Right s = Consistent g laws jl net s × PlainIn g laws s.db

  same_texts : (s t : State x m g.D) → t.db ≡ s.db → PlainIn g laws s.db → PlainIn g laws t.db
  same_texts s t same h = rw same h

  Step-Right : (s t : State x m g.D) → Step c g laws x m j net r ctx s t → Right s → Right t
  Step-Right s t (read_by_id id p e) h =
      let (_, same, right) = get_user_by_id-Consistent g laws jl net r ctx alone id s p h.0 in
      rw e (right, same_texts s (get_user_by_id c g x m j r ctx id s).1 same h.1)
  Step-Right s t (read_by_username u asked e) h =
      let (_, same, right) =
        get_user_by_username-Consistent g laws jl net r ctx alone u s (asked.0, asked.1, h.1) h.0 in
      rw e (right, same_texts s (get_user_by_username c g x m j r ctx u s).1 same h.1)
  Step-Right s t (read_by_email a asked e) h =
      let (_, same, right) =
        get_user_by_email-Consistent g laws jl net r ctx alone a s (asked.0, asked.1, h.1) h.0 in
      rw e (right, same_texts s (get_user_by_email c g x m j r ctx a s).1 same h.1)
  Step-Right s t (create u unset name email plain e) h = rw e (
    create_user-Consistent g laws jl net r ctx up u s unset name email h.0,
    create_user-Plain g laws j r ctx u s unset plain h.1,
  )
  Step-Right s t (update u plain e) h = rw e (
    update_user-Consistent g laws jl net r ctx up u s h.0,
    update_user-Plain g laws j r ctx u s plain h.1,
  )
  Step-Right s t (delete id e) h = rw e (
    delete_user-Consistent g laws jl net r ctx up id s h.0,
    delete_user-Plain g laws j r ctx id s h.1,
  )
  Step-Right s t (expire n drops e) h = rw e ((h.0.0, λ k d left. h.0.1 k d (drops k d left)), h.1)

  Reach-Right : (s t : State x m g.D) → Reach c g laws x m j net r ctx s t → Right s → Right t
  Reach-Right s t here h = h
  Reach-Right s t (next {t = mid} reach step) h = Step-Right mid t step (Reach-Right s mid reach h)

  -- After any number of lookups, creations, updates and deletions from a consistent state, made
  -- one after the other while Redis can be reached, with entries that expire at any time, the
  -- lookups by a positive id and by a username answer what the table says at that moment. A lookup
  -- by id has a positive id, and one by a name a name that is not blank; a creation has a username, an
  -- address and no id, an update any user, also one with a blank username and a blank address. The
  -- names and addresses asked for, written, and in the table at first are plain: texts that the
  -- collation of the columns tells apart wherever they differ.
  pub lookups_after_history :
      (s t : State x m g.D) (id : ℤ) (u : String)
      → Reach c g laws x m j net r ctx s t
      → Consistent g laws jl net s
      → PlainIn g laws s.db
      → ltb_ℤ (pos 0) id ≡ true
      → Asked g laws u
      → UserAnswer g laws id t.db (get_user_by_id c g x m j r ctx id t).0
        × IndexedAnswer g laws username_index u t.db (get_user_by_username c g x m j r ctx u t).0
  lookups_after_history s t id u reach right plain p asked =
      let (now, texts) = Reach-Right s t reach (right, plain) in
      (
        (get_user_by_id-Consistent g laws jl net r ctx alone id t p now).0,
        (get_user_by_username-Consistent g laws jl net r ctx alone u t (asked.0, asked.1, texts)
            now).0,
      )
