-- ===== src/User/Race/Exclusion.antt =====
-- internal/model/user/biz/user.go: what holds between the steps of several calls of Register.
use kratos_layout_monolith.Prelude.{
  ℕ, ◌+◌, ◌≤◌, String, true, false, some, ◌≡◌, ◌==◌, ◌⊎◌, inl, inr, refl, sym, ap, ◌∙◌, subst,
  arith, str_eq, eq_iff, Bool-cases, if◌then◌else◌,
}
use kratos_layout_monolith.Prelude.Int.{ℤ}
use kratos_layout_monolith.Errors.{Error, not_found, Result, ok, err}
use kratos_layout_monolith.User.Model.{User}
use kratos_layout_monolith.User.Usecase.{UserRepo, Locker, register_lock_key, create_unless_found}
use kratos_layout_monolith.User.Usecase.Locking.{LockLaws}
use kratos_layout_monolith.User.Race.{
  Pc, locked, looked, leaving, holder, unlocker, update, IsClear, System,
}
use kratos_layout_monolith.User.Race.Registry.{Registry}
use kratos_layout_monolith.User.Race.Threads.{
  update_cases, moved_same, looked_injective, leaving-ne-looked,
}

module _ {repo : UserRepo} {locker : Locker} (registry : Registry repo)
    (locks : LockLaws locker) where
  -- No two live users bear one name; the lock of each thread that registers is held and no other
  -- thread's; and after a lookup that found nobody, nobody bears the name.
  pub record Safe (s : System repo locker) : Type 0 where
    pub kept : registry.Inv s.world.store
    pub unique : (k : String) → registry.bearers s.world.store k ≤ 1
    pub able : (i : ℕ) (u : User) → holder (s.pc i) ≡ some u → registry.Can u
    pub held :
        (i : ℕ) (u : User)
        → holder (s.pc i) ≡ some u
        → locks.held s.world.locks (register_lock_key u.username) ≡ true
    pub named :
        (i : ℕ) (u : User) (unlock : locker.Unlock)
        → holder (s.pc i) ≡ some u
        → unlocker (s.pc i) ≡ some unlock
        → locks.name_of unlock ≡ register_lock_key u.username
    pub apart :
        (i j : ℕ) (u v : User)
        → holder (s.pc i) ≡ some u
        → holder (s.pc j) ≡ some v
        → (i ≡ j) ⊎ (str_eq u.username v.username ≡ false)
    pub missing :
        (i : ℕ) (u : User) (unlock : locker.Unlock) (e : Error)
        → s.pc i ≡ looked unlock u (err e)
        → (e ≡ not_found) × (registry.bearers s.world.store u.username ≡ 0)

  -- Steps that change no thread and no lock, and add no bearer.
  pub Safe-store :
      (s : System repo locker) (store : repo.S)
      → registry.Inv store
      → ((k : String) → registry.bearers store k ≤ registry.bearers s.world.store k)
      → Safe s
      → Safe (record s { world = record (s.world) { store = store } })
  Safe-store s store inv fewer h = record {
    kept = inv;
    unique = λ k. omega (arith, fewer k, h.unique k);
    able = h.able;
    held = h.held;
    named = h.named;
    apart = h.apart;
    missing = λ i u f e at.
        let (same, absent) = h.missing i u f e at in
        (same, omega (arith, fewer u.username, absent));
  }

  -- A name that nobody bears gets one bearer, and no other name gets one.
  one_more :
      (u k : String) (s t : repo.S)
      → registry.bearers s u ≡ 0
      → ((k : String) → registry.bearers s k ≤ 1)
      → registry.bearers t k ≤ registry.bearers s k + (if str_eq u k then 1 else 0)
      → registry.bearers t k ≤ 1
  one_more u k s t absent unique more = elim (Bool-cases (str_eq u k)) [
    | inr differ ↦
        let same : registry.bearers t k ≤ registry.bearers s k + 0 = rw differ at more in
        omega (arith, same, unique k)
    | inl equal ↦
        let one : registry.bearers t k ≤ registry.bearers s k + 1 = rw equal at more in
        let none_yet : registry.bearers s k ≡ 0 =
          subst (λ n. registry.bearers s n ≡ 0) ((eq_iff u k).0 equal) absent in
        omega (arith, one, none_yet)
  ]

  no_more :
      (i j : ℕ) (u w : User) {a b : ℕ}
      → (i == j) ≡ false
      → (i ≡ j) ⊎ (str_eq u.username w.username ≡ false)
      → b ≡ 0
      → a ≤ b + (if str_eq u.username w.username then 1 else 0)
      → a ≡ 0
  no_more i j u w ne cases nobody more = ground arith

  pub Safe-refuse :
      (s : System repo locker) (k : String) (d : ℤ) {e : Error}
      → (locker.lock k d s.world.locks).0 ≡ err e
      → Safe s
      → Safe (record s { world = record (s.world) { locks = (locker.lock k d s.world.locks).1 } })
  Safe-refuse s k d refused h = record {
    kept = h.kept;
    unique = h.unique;
    able = h.able;
    held = λ i u at.
        locks.lock_refused k d s.world.locks (register_lock_key u.username) refused ∙ h.held i u at;
    named = h.named;
    apart = h.apart;
    missing = h.missing;
  }

  -- A thread that moves on with its user.
  Safe-moved :
      (s : System repo locker) (i : ℕ) (p q : Pc locker.Unlock) (store : repo.S)
      → s.pc i ≡ p
      → holder q ≡ holder p
      → unlocker q ≡ unlocker p
      → registry.Inv store
      → ((k : String) → registry.bearers store k ≤ 1)
      → ((j : ℕ) (v : User) (f : locker.Unlock) (e : Error)
          → update s.pc i q j ≡ looked f v (err e)
          → (e ≡ not_found) × (registry.bearers store v.username ≡ 0))
      → Safe s
      → Safe (record { world = record (s.world) { store = store }; pc = update s.pc i q })
  Safe-moved s i p q store at same same_unlock inv unique missing h =
      let as_before = moved_same holder s.pc i p at q same in
      let unlock_before = moved_same unlocker s.pc i p at q same_unlock in
      record {
        kept = inv;
        unique = unique;
        able = λ j v holds. h.able j v (sym (as_before j) ∙ holds);
        held = λ j v holds. h.held j v (sym (as_before j) ∙ holds);
        named = λ j v f holds has.
            h.named j v f (sym (as_before j) ∙ holds) (sym (unlock_before j) ∙ has);
        apart = λ j k v w hv hw. h.apart j k v w (sym (as_before j) ∙ hv) (sym (as_before k) ∙ hw);
        missing = missing;
      }

  pub Safe-look :
      (s : System repo locker) (i : ℕ) (u : User) (unlock : locker.Unlock)
      → s.pc i ≡ locked unlock u
      → IsClear (repo.get_user_by_username u.username s.world.store).0
      → Safe s
      → let (found, store) = repo.get_user_by_username u.username s.world.store in
        Safe (record {
          world = record (s.world) { store = store };
          pc = update s.pc i (looked unlock u found);
        })
  Safe-look s i u unlock at clear h =
      let (found, store) = repo.get_user_by_username u.username s.world.store in
      let can = h.able i u (ap holder at) in
      let same = λ (k : String). registry.lookup_bearers u s.world.store k can h.kept in
      Safe-moved s i (locked unlock u) (looked unlock u found) store at refl refl
        (registry.lookup_keeps u s.world.store can h.kept) (λ k. omega (arith, same k, h.unique k))
        (λ j v f e there. elim (update_cases s.pc i (looked unlock u found) j) [
          | inl (_, moved) ↦
              let (same_user, answer) = looked_injective (sym moved ∙ there) in
              let none_found : e ≡ not_found = subst IsClear answer clear in
              (
                none_found,
                ap (λ (w : User). registry.bearers store w.username) (sym same_user)
                    ∙ same u.username
                    ∙ registry.lookup_misses u s.world.store can h.kept
                        (answer ∙ ap err none_found),
              )
          | inr (_, kept) ↦
              let (none_found, absent) = h.missing j v f e (sym kept ∙ there) in
              (none_found, same v.username ∙ absent)
        ])
        h

  pub Safe-decide :
      (s : System repo locker) (i : ℕ) (u : User) (unlock : locker.Unlock) (found : Result User)
      → s.pc i ≡ looked unlock u found
      → Safe s
      → Safe (record {
        world = record (s.world) {
          store = (create_unless_found repo locker u found s.world.store).1;
        };
        pc = update s.pc i (leaving unlock u);
      })
  unfolding create_unless_found
  Safe-decide s i u unlock (ok v) at h =
      Safe-moved s i (looked unlock u (ok v)) (leaving unlock u) s.world.store at refl refl h.kept
        h.unique
        (λ j w f e there. elim (update_cases s.pc i (leaving unlock u) j) [
          | inl (_, moved) ↦ absurd (leaving-ne-looked (sym moved ∙ there))
          | inr (_, kept) ↦ h.missing j w f e (sym kept ∙ there)
        ])
        h
  Safe-decide s i u unlock (err e) at h =
      let (none_found, absent) = h.missing i u unlock e at in
      let store = (repo.create_user u s.world.store).1 in
      let can = h.able i u (ap holder at) in
      let more = λ (k : String). registry.create_bearers u s.world.store k can h.kept in
      let created : create_unless_found repo locker u (err e) s.world.store
          ≡ repo.create_user u s.world.store =
        ap (λ f. create_unless_found repo locker u (err f) s.world.store) none_found in
      subst
        (λ (r : Result User × repo.S). Safe (record {
          world = record (s.world) { store = r.1 };
          pc = update s.pc i (leaving unlock u);
        }))
        (sym created)
        (Safe-moved s i (looked unlock u (err e)) (leaving unlock u) store at refl refl
          (registry.create_keeps u s.world.store can h.kept)
          (λ k. one_more u.username k s.world.store store absent h.unique (more k))
          (λ j w g f there. elim (update_cases s.pc i (leaving unlock u) j) [
            | inl (_, moved) ↦ absurd (leaving-ne-looked (sym moved ∙ there))
            | inr (ne, kept) ↦
                let (none_there, nobody) = h.missing j w g f (sym kept ∙ there) in
                (
                  none_there,
                  no_more i j u w ne (h.apart i j u w (ap holder at) (ap holder (sym kept ∙ there)))
                      nobody (more w.username),
                )
          ])
          h)
