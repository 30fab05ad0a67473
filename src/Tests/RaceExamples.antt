-- ===== src/Tests/RaceExamples.antt =====
-- Two registrations at once, of one name and of another.
use kratos_layout_monolith.Prelude.Int.{pos}
use kratos_layout_monolith.Cache.State.{background}
use kratos_layout_monolith.User.Model.{User}
use kratos_layout_monolith.User.Service.{new_user}
use kratos_layout_monolith.User.Usecase.{register_lock_key, create_unless_found}
use kratos_layout_monolith.User.Repo.{get_user_by_username, delete_user}
use kratos_layout_monolith.User.Race.{System, update, locked, looked, leaving, idle}
use kratos_layout_monolith.Tests.Table.{clock, table, redis}
use kratos_layout_monolith.Tests.World.{sinks}
use kratos_layout_monolith.Tests.Coding.{row_json}
use kratos_layout_monolith.Tests.HistoryExamples.{calm}
use kratos_layout_monolith.Tests.RegisterExamples.{locks, repo, nobody, request}

abbrev quiet : System repo locks
quiet = record { world = nobody; pc = λ _. idle }

abbrev bob : User
bob = new_user request

-- Bob's lock is taken, a second call for bob is refused, the name is looked up, alice is deleted, and
-- bob is created.
abbrev begun : System repo locks
begun = record {
  world = record nobody {
    locks = (locks.lock (register_lock_key "bob_1") (pos 5000000000) nobody.locks).1;
  };
  pc = update quiet.pc 0 (locked "lock:register:bob_1" bob);
}

abbrev looked_up : System repo locks
looked_up = record {
  world = record (begun.world) { store = (repo.get_user_by_username "bob_1" nobody.store).1 };
  pc =
      update begun.pc 0
        (looked "lock:register:bob_1" bob (repo.get_user_by_username "bob_1" nobody.store).0);
}

abbrev without_alice : System repo locks
without_alice = record looked_up {
  world = record (looked_up.world) {
    store =
        (delete_user clock table calm sinks row_json redis (background calm) (pos 1)
          looked_up.world.store).1;
  };
}

abbrev created : System repo locks
created = record {
  world = record (without_alice.world) {
    store =
        (create_unless_found repo locks bob (repo.get_user_by_username "bob_1" nobody.store).0
          without_alice.world.store).1;
  };
  pc = update without_alice.pc 0 (leaving "lock:register:bob_1" bob);
}
