-- ===== src/User/Race/Entering.antt =====
-- internal/model/user/biz/user.go: the lock and the release in several calls of Register, and all the
-- steps together.
use kratos_layout_monolith.Prelude.{
  ℕ, ◌*◌, ◌≤◌, String, true, false, some, ◌≡◌, inl, inr, sym, ap, ◌∙◌, subst, arith, str_eq, eq_iff,
  Bool-cases,
}
use kratos_layout_monolith.Prelude.Int.{pos}
use kratos_layout_monolith.Errors.{ok}
use kratos_layout_monolith.Cache.State.{second}
use kratos_layout_monolith.User.Model.{User}
use kratos_layout_monolith.User.Usecase.{UserRepo, Locker, register_lock_key}
use kratos_layout_monolith.User.Usecase.Locking.{LockLaws}
use kratos_layout_monolith.User.Race.{
  idle, locked, leaving, holder, unlocker, update, System, Step, refuse, begin, look, decide,
  release, other, Reach, here, next,
}
use kratos_layout_monolith.User.Race.Registry.{Registry}
use kratos_layout_monolith.User.Race.Exclusion.{
  Safe, Safe-store, Safe-refuse, Safe-look, Safe-decide,
}
use kratos_layout_monolith.User.Race.Threads.{
  lock_keys_differ, update_cases, some_injective, holder_cases, idle_holds_none, still, apart_by,
}

module _ {repo : UserRepo} {locker : Locker} (registry : Registry repo)
    (locks : LockLaws locker) where
  -- A lock that is free and one that is held have different names.
  other_name :
      (l : locker.L) (u v : User)
      → locks.held l (register_lock_key u.username) ≡ false
      → locks.held l (register_lock_key v.username) ≡ true
      → str_eq u.username v.username ≡ false
  other_name l u v free held = elim (Bool-cases (str_eq u.username v.username)) [
    | inr differ ↦ differ
    | inl same ↦
        let key =
          ap (λ n. locks.held l (register_lock_key n)) ((eq_iff u.username v.username).0 same) in
        absurd (cc (key, free, held))
  ]

  sym_name :
      (u v : User) → str_eq u.username v.username ≡ false → str_eq v.username u.username ≡ false
  sym_name u v h = ground (arith, eq_iff u.username v.username, eq_iff v.username u.username)

  -- The users of the threads are as before, but for the one that has just begun.
  Safe-begin :
      (s : System repo locker) (i : ℕ) (u : User) (unlock : locker.Unlock)
      → registry.Can u
      → s.pc i ≡ idle
      → (locker.lock (register_lock_key u.username) (pos (5 * second)) s.world.locks).0 ≡ ok unlock
      → Safe registry locks s
      → Safe registry locks (record {
        world = record (s.world) {
          locks = (locker.lock (register_lock_key u.username) (pos (5 * second)) s.world.locks).1;
        };
        pc = update s.pc i (locked unlock u);
      })
  Safe-begin s i u unlock can at taken h =
      let key = register_lock_key u.username in
      let l = s.world.locks in
      let free = locks.lock_was_free key (pos (5 * second)) l taken in
      let differs = λ (j : ℕ) (v : User) (holds : holder (s.pc j) ≡ some v).
        other_name l u v free (h.held j v holds) in
      record {
        kept = h.kept;
        unique = h.unique;
        able = λ j v holds. elim (holder_cases s.pc i (locked unlock u) j v holds) [
          | inl (_, e) ↦ subst registry.Can (some_injective e) can
          | inr (_, before) ↦ h.able j v before
        ];
        held = λ j v holds. elim (holder_cases s.pc i (locked unlock u) j v holds) [
          | inl (_, e) ↦
              subst
                (λ (w : User).
                  locks.held (locker.lock key (pos (5 * second)) l).1 (register_lock_key w.username)
                  ≡ true)
                (some_injective e) (locks.lock_holds key (pos (5 * second)) l taken)
          | inr (_, before) ↦
              locks.lock_others key (pos (5 * second)) l (register_lock_key v.username)
                (lock_keys_differ u.username v.username (differs j v before))
              ∙ h.held j v before
        ];
        named = λ j v f holds has. elim (update_cases s.pc i (locked unlock u) j) [
          | inl (_, moved) ↦
              ap locks.name_of (sym (some_injective (ap unlocker (sym moved) ∙ has)))
              ∙ locks.lock_names key (pos (5 * second)) l taken
              ∙ ap (λ (w : User). register_lock_key w.username)
                  (some_injective (ap holder (sym moved) ∙ holds))
          | inr (_, kept) ↦
              h.named j v f (ap holder (sym kept) ∙ holds) (ap unlocker (sym kept) ∙ has)
        ];
        apart = λ j k v w hv hw. elim (holder_cases s.pc i (locked unlock u) j v hv) [
          | inl (i_j, e) ↦ elim (holder_cases s.pc i (locked unlock u) k w hw) [
            | inl (i_k, _) ↦ inl (sym i_j ∙ i_k)
            | inr (_, before) ↦ inr (
                subst (λ (a : User). str_eq a.username w.username ≡ false) (some_injective e)
                  (differs k w before))
          ]
          | inr (_, before) ↦ elim (holder_cases s.pc i (locked unlock u) k w hw) [
            | inl (_, e) ↦ inr (
                subst (λ (a : User). str_eq v.username a.username ≡ false) (some_injective e)
                  (sym_name u v (differs j v before)))
            | inr (_, before_too) ↦ h.apart j k v w before before_too
          ]
        ];
        missing = λ j v f e there. elim (update_cases s.pc i (locked unlock u) j) [
          | inl (_, moved) ↦ absurd (cc (moved, there))
          | inr (_, kept) ↦ h.missing j v f e (sym kept ∙ there)
        ];
      }

  Safe-release :
      (s : System repo locker) (i : ℕ) (u : User) (unlock : locker.Unlock)
      → s.pc i ≡ leaving unlock u
      → Safe registry locks s
      → Safe registry locks (record {
        world = record (s.world) { locks = locker.unlock unlock s.world.locks };
        pc = update s.pc i idle;
      })
  Safe-release s i u unlock at h =
      let l = s.world.locks in
      let mine = h.named i u unlock (ap holder at) (ap unlocker at) in
      let before = λ (j : ℕ) (v : User) (holds : holder (update s.pc i idle j) ≡ some v).
        still s.pc i j v holds in
      record {
        kept = h.kept;
        unique = h.unique;
        able = λ j v holds. h.able j v ((before j v holds).1);
        held = λ j v holds.
            let (ne, held) = before j v holds in
            locks.unlock_others unlock l (register_lock_key v.username) (
              ap (λ n. str_eq n (register_lock_key v.username)) mine
              ∙ lock_keys_differ u.username v.username
                  (apart_by i j u v ne (h.apart i j u v (ap holder at) held)))
            ∙ h.held j v held;
        named = λ j v f holds has. elim (update_cases s.pc i idle j) [
          | inl (_, moved) ↦ absurd (idle_holds_none moved holds)
          | inr (_, kept) ↦
              h.named j v f (ap holder (sym kept) ∙ holds) (ap unlocker (sym kept) ∙ has)
        ];
        apart = λ j k v w hv hw. h.apart j k v w ((before j v hv).1) ((before k w hw).1);
        missing = λ j v f e there. elim (update_cases s.pc i idle j) [
          | inl (_, moved) ↦ absurd (cc (moved, there))
          | inr (_, kept) ↦ h.missing j v f e (sym kept ∙ there)
        ];
      }

  Step-Safe :
      (s t : System repo locker)
      → Step repo locker registry.Can registry.Other s t
      → Safe registry locks s
      → Safe registry locks t
  Step-Safe s t (refuse u e refused to) h =
      rw to
        (Safe-refuse registry locks s (register_lock_key u.username) (pos (5 * second)) refused h)
  Step-Safe s t (begin i u unlock can at taken to) h =
      rw to (Safe-begin s i u unlock can at taken h)
  Step-Safe s t (look i u unlock at clear to) h =
      rw to (Safe-look registry locks s i u unlock at clear h)
  Step-Safe s t (decide i u unlock found at to) h =
      rw to (Safe-decide registry locks s i u unlock found at h)
  Step-Safe s t (release i u unlock at to) h = rw to (Safe-release s i u unlock at h)
  Step-Safe s t (other store did to) h = rw to (
      Safe-store registry locks s store (registry.other_keeps s.world.store store did h.kept)
        (λ k. registry.other_bearers s.world.store store k did h.kept) h)

  pub Reach-Safe :
      (s t : System repo locker)
      → Reach repo locker registry.Can registry.Other s t
      → Safe registry locks s
      → Safe registry locks t
  Reach-Safe s t here h = h
  Reach-Safe s t (next {t = mid} reach step) h = Step-Safe mid t step (Reach-Safe s mid reach h)

  -- While no thread registers, a store with unique names is safe.
  pub Safe-idle :
      (s : System repo locker)
      → ((i : ℕ) → s.pc i ≡ idle)
      → registry.Inv s.world.store
      → ((k : String) → registry.bearers s.world.store k ≤ 1)
      → Safe registry locks s
  Safe-idle s quiet kept unique = record {
    kept = kept;
    unique = unique;
    able = λ i u holds. absurd (idle_holds_none (quiet i) holds);
    held = λ i u holds. absurd (idle_holds_none (quiet i) holds);
    named = λ i u f holds _. absurd (idle_holds_none (quiet i) holds);
    apart = λ i j u v holds _. absurd (idle_holds_none (quiet i) holds);
    missing = λ i u f e there. absurd (cc (quiet i, there));
  }
