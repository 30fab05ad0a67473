-- ===== src/User/Usecase/Registration.antt =====
-- Register from the request to the table: its validation, the lock, the repository and the cache.
use kratos_layout_monolith.Prelude.{
  String, Bool, true, false, ◌≡◌, refl, sym, subst, inl, inr, str_eq, eq_iff, arith, Bool-cases,
  ◌≤◌, ◌*◌, length,
}
use kratos_layout_monolith.Prelude.Int.{ℤ, pos}
use kratos_layout_monolith.Prelude.Text.{codes}
use kratos_layout_monolith.Errors.{
  Error, record_not_found, errors_is, panic, Result, ok, err, Result-cases,
}
use kratos_layout_monolith.External.Redis.{Externals, Json}
use kratos_layout_monolith.External.Gorm.{Gorm}
use kratos_layout_monolith.External.Text.{Texts, address}
use kratos_layout_monolith.Cache.Metrics.Collector.{Sinks}
use kratos_layout_monolith.Cache.State.{Redis, State, Context, second}
use kratos_layout_monolith.Cache.Coherence.{NetLaws}
use kratos_layout_monolith.Cache.Take.Spec.{JsonLaws}
use kratos_layout_monolith.Middleware.Token.{Jwt, generate_token}
use kratos_layout_monolith.User.Model.{Times, Row, User}
use kratos_layout_monolith.User.Table.{TableLaws}
use kratos_layout_monolith.User.Keys.{username_index}
use kratos_layout_monolith.User.Repo.{get_user_by_username}
use kratos_layout_monolith.User.Repo.Lists.{new_user_repo}
use kratos_layout_monolith.User.Repo.Plain.{PlainIn}
use kratos_layout_monolith.User.Repo.Consistent.{Alone, Consistent, get_user_by_username-Consistent}
use kratos_layout_monolith.User.Repo.IndexQueries.{conds_of}
use kratos_layout_monolith.User.Repo.ConsistentWrites.{Up}
use kratos_layout_monolith.User.Repo.ConsistentCreates.{create_user-Consistent}
use kratos_layout_monolith.User.Usecase
use kratos_layout_monolith.User.Usecase.{
  UserRepo, Locker, World, register_lock_key, create_unless_found, register_locked,
}
use kratos_layout_monolith.User.Service.{RegisterRequest, new_user, register}
use kratos_layout_monolith.User.Validation.{valid}
use kratos_layout_monolith.User.Validation.Register.{validate_register}
use kratos_layout_monolith.User.Validation.Accepted.{validate_register_iff}

-- The store after the handler is the store after the use case.
register_store :
    (repo : UserRepo) (locker : Locker) (w : Jwt) (secret : String) (expire : ℤ)
    (req : RegisterRequest) (s : World repo locker) (t : w.Clock)
    → (register repo locker w secret expire req s t).1
      ≡ (Usecase.register repo locker (new_user req) s).1
unfolding register
register_store repo locker w secret expire req s t =
    elim (Result-cases (Usecase.register repo locker (new_user req) s).0) [
      | inr (e, failed) ↦ rw (failed, register) refl
      | inl (user, fine) ↦
          elim (Result-cases (generate_token w secret user.id user.username expire t).0) [
            | inl (signed, made) ↦ rw (fine, made, register) refl
            | inr (e, failed) ↦ rw (fine, failed, register) refl
          ]
    ]

-- An accepted request has a username and an address.
accepted_names :
    (t : Texts) (all : Bool) (req : RegisterRequest)
    → ((a : String) → t.parse_address "" ≡ address a → ⊥)
    → validate_register t all req ≡ ok valid
    → (str_eq req.username "" ≡ false) × (str_eq req.email "" ≡ false)
accepted_names t all req blank h =
    let (name, word, mail, phone) = (validate_register_iff t all req).0 h in
    let (a, parsed, _) = mail in
    (
      elim (Bool-cases (str_eq req.username "")) [
        | inl same ↦
            let some_char : 1 ≤ length (codes "") =
              subst (λ s. 1 ≤ length (codes s)) ((eq_iff req.username "").0 same) name.0 in
            absurd (omega (arith, some_char))
        | inr other ↦ other
      ],
      elim (Bool-cases (str_eq req.email "")) [
        | inl same ↦ absurd (
            blank a
              (subst (λ s. t.parse_address s ≡ address a) ((eq_iff req.email "").0 same) parsed))
        | inr other ↦ other
      ],
    )

-- The database answers the lookups by a name: it finds a row or says that there is none.
abbrev pub Answers : (c : Times) (g : Gorm (Row c.Time) c.Time) → String → g.D → Type 0
Answers c g u d =
    (v : Row c.Time) (e : Error)
    → (g.first (conds_of (username_index {T = c.Time}) u) v d).0 ≡ err e
    → errors_is e record_not_found ≡ true

module _ {c : Times} (g : Gorm (Row c.Time) c.Time) (laws : TableLaws c g) {x : Externals}
    {m : Sinks} {j : Json (Row c.Time)} (jl : JsonLaws j) (net : NetLaws x) (r : Redis)
    (ctx : Context x) (alone : Alone x) (up : Up x r ctx) (locker : Locker) where
  create_unless_found-Consistent :
      (u : User) (found : Result User) (s : State x m g.D)
      → u.id ≡ pos 0
      → str_eq u.username "" ≡ false
      → str_eq u.email "" ≡ false
      → Consistent g laws jl net s
      → Consistent g laws jl net
          (create_unless_found (new_user_repo c g x m j r ctx) locker u found s).1
  unfolding create_unless_found
  create_unless_found-Consistent u (ok v) s unset name email h = h
  create_unless_found-Consistent u (err (panic p)) s unset name email h = h
  create_unless_found-Consistent u (err e) s unset name email h =
      create_user-Consistent g laws jl net r ctx up u s unset name email h

  register_locked-Consistent :
      (u : User) (s : State x m g.D)
      → u.id ≡ pos 0
      → str_eq u.username "" ≡ false
      → str_eq u.email "" ≡ false
      → laws.is_plain u.username ≡ true
      → PlainIn g laws s.db
      → Consistent g laws jl net s
      → Consistent g laws jl net (register_locked (new_user_repo c g x m j r ctx) locker u s).1
  unfolding register_locked
  register_locked-Consistent u s unset name email plain texts h =
      let (found, s1) = get_user_by_username c g x m j r ctx u.username s in
      create_unless_found-Consistent u found s1 unset name email (
        (get_user_by_username-Consistent g laws jl net r ctx alone u.username s (name, plain, texts)
          h).2)

  use_case-Consistent :
      (u : User) (w : World (new_user_repo c g x m j r ctx) locker)
      → u.id ≡ pos 0
      → str_eq u.username "" ≡ false
      → str_eq u.email "" ≡ false
      → laws.is_plain u.username ≡ true
      → PlainIn g laws w.store.db
      → Consistent g laws jl net w.store
      → Consistent g laws jl net
          (Usecase.register (new_user_repo c g x m j r ctx) locker u w).1.store
  unfolding Usecase.register
  use_case-Consistent u w unset name email plain texts h =
      elim (Result-cases
        (locker.lock (register_lock_key u.username) (pos (5 * second)) w.locks).0) [
          | inl (a, taken) ↦
              rw (taken, Usecase.register)
                (register_locked-Consistent u w.store unset name email plain texts h)
          | inr (e, refused) ↦ rw (refused, Usecase.register) h
        ]

  -- The handler of Register, given a request that Validate or ValidateAll accepts, keeps a consistent
  -- cache consistent, whether it creates a user, finds the name taken, fails, or is refused the lock;
  -- while Redis can be reached and no other lookup is under way, and as mail.ParseAddress refuses the
  -- empty text. The username, and the names and addresses of the rows, are plain: texts that the
  -- collation of the columns tells apart wherever they differ.
  pub register-Consistent :
      (t : Texts) (all : Bool) (req : RegisterRequest) (jwt : Jwt) (secret : String) (expire : ℤ)
      (w : World (new_user_repo c g x m j r ctx) locker) (now : jwt.Clock)
      → ((a : String) → t.parse_address "" ≡ address a → ⊥)
      → validate_register t all req ≡ ok valid
      → laws.is_plain req.username ≡ true
      → PlainIn g laws w.store.db
      → Consistent g laws jl net w.store
      → Consistent g laws jl net
          (register (new_user_repo c g x m j r ctx) locker jwt secret expire req w now).1.store
  register-Consistent t all req jwt secret expire w now blank accepted plain texts h =
      let repo = new_user_repo c g x m j r ctx in
      let (name, email) = accepted_names t all req blank accepted in
      subst (λ (v : World repo locker). Consistent g laws jl net v.store)
        (sym (register_store repo locker jwt secret expire req w now))
        (use_case-Consistent (new_user req) w refl name email plain texts h)
