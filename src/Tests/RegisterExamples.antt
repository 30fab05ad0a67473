-- ===== src/Tests/RegisterExamples.antt =====
-- The theorems on the registration of a user, at the table with one user.
use kratos_layout_monolith.Prelude.{
  ℕ, ◌+◌, String, Bool, true, false, some, none, List, ◌∷◌, ◌++◌, ◌≡◌, inl, inr, refl, ap, ◌∙◌, sym,
  str_eq, eq_refl, if◌then◌else◌, Bool-cases, ◌&&◌, leb, arith, ◌↔◌,
}
use kratos_layout_monolith.Prelude.Int.{pos}
use kratos_layout_monolith.Prelude.Text.{codes}
use kratos_layout_monolith.Errors.{Error, Result, ok, err}
use kratos_layout_monolith.External.Text.{Texts, Parsed, address, refused}
use kratos_layout_monolith.Cache.State.{background}
use kratos_layout_monolith.User.Repo.Lists.{new_user_repo}
use kratos_layout_monolith.User.Repo.Consistent.{Consistent}
use kratos_layout_monolith.User.Usecase.{
  UserRepo, Locker, World, err_too_many_requests, register_lock_key,
}
use kratos_layout_monolith.User.Usecase
use kratos_layout_monolith.User.Usecase.Locking.{LockLaws, register_releases}
use kratos_layout_monolith.User.Usecase.Registration.{register-Consistent}
use kratos_layout_monolith.User.Service.{RegisterRequest, new_user, register}
use kratos_layout_monolith.User.Validation.{Validity, valid}
use kratos_layout_monolith.User.Validation.Hostname.{
  utf8_len, split, trim_dot, last, chars_error, part_error, parts_error, validate_hostname,
}
use kratos_layout_monolith.User.Validation.Labels.{IsHostname, validate_hostname_iff}
use kratos_layout_monolith.User.Validation.Register.{
  cut, address_error, validate_email, run_fallible, validate_register,
}
use kratos_layout_monolith.User.Validation.Accepted.{
  IsAcceptable, validate_register_iff, validate_register_returns,
}
use kratos_layout_monolith.Tests.Table.{clock, table, table_laws, redis}
use kratos_layout_monolith.Tests.World.{sinks}
use kratos_layout_monolith.Tests.Coding.{row_json, row_laws}
use kratos_layout_monolith.Tests.MiddlewareExamples.{jwt}
use kratos_layout_monolith.Tests.HistoryExamples.{
  calm, calm_laws, calm-Up, start, start-Consistent, start-PlainIn,
}

-- An address is parsed as it is written, where it has the "@" of the only one that is accepted.
abbrev parse : String → Parsed
parse s = if str_eq s "bob@a-1.org" then address "bob@a-1.org" else refused "mail: no address"

abbrev to_lower : ℕ → ℕ
to_lower c = if leb 65 c && leb c 90 then c + 32 else c

abbrev texts : Texts
texts = record { parse_address = parse; to_lower = to_lower; quote = λ c. "'?'" }

abbrev pub request : RegisterRequest
request = record {
  username = "bob_1";
  password = "secret";
  email = "bob@a-1.org";
  phone = "13912345678";
}

-- "A.b."
validate_hostname_iff_example :
    (validate_hostname texts (codes "A.b.") ≡ none) ↔ IsHostname texts (codes "A.b.")
validate_hostname_iff_example = validate_hostname_iff texts (codes "A.b.")

test_hostname : validate_hostname texts (codes "A.b.") ≡ none
unfolding validate_hostname split trim_dot last utf8_len chars_error part_error parts_error
test_hostname = refl

test_hyphen :
    validate_hostname texts (codes "a.-b") ≡ some "hostname parts cannot begin with hyphens"
unfolding validate_hostname split trim_dot last utf8_len chars_error part_error parts_error
test_hyphen = refl

request_valid : (all : Bool) → validate_register texts all request ≡ ok valid
unfolding validate_register run_fallible validate_email address_error cut validate_hostname split
    trim_dot last utf8_len chars_error part_error parts_error
request_valid all = refl

validate_register_iff_example :
    (validate_register texts true request ≡ ok valid) ↔ IsAcceptable texts request
validate_register_iff_example = validate_register_iff texts true request

address_injective : (a b : String) → address a ≡ address b → a ≡ b
address_injective a b h = cc

parse_at :
    (s a : String)
    → parse s ≡ address a
    → (user : List ℕ) × (host : List ℕ) × (codes a ≡ user ++ (64 ∷ host))
parse_at s a h = elim (Bool-cases (str_eq s "bob@a-1.org")) [
  | inl same ↦ (
    codes "bob",
    codes "a-1.org",
    ap codes (sym (address_injective "bob@a-1.org" a (ground (arith, h, same)))),
  )
  | inr other ↦ absurd (ground (arith, h, other))
]

validate_register_returns_example : (v : Validity) × (validate_register texts true request ≡ ok v)
validate_register_returns_example = validate_register_returns texts parse_at true request

-- Locks without a time limit.
abbrev try_lock : String → (String → Bool) → Result String × (String → Bool)
try_lock k l =
    if l k then (err err_too_many_requests, l) else (ok k, λ j. if str_eq k j then true else l j)

abbrev pub locks : Locker
locks = record {
  L = String → Bool;
  Unlock = String;
  lock = λ k d l. try_lock k l;
  unlock = λ k l j. if str_eq k j then false else l j;
}

pub lock_taken :
    (k : String) (l : String → Bool) {u : String}
    → (try_lock k l).0 ≡ ok u
    → (l k ≡ false) × (u ≡ k)
lock_taken k l h = (ground arith, ground arith)

pub lock_holds :
    (k : String) (l : String → Bool) {u : String}
    → (try_lock k l).0 ≡ ok u
    → (try_lock k l).1 k ≡ true
lock_holds k l h = ground (arith, eq_refl k)

pub lock_others :
    (k : String) (l : String → Bool) (j : String) → str_eq k j ≡ false → (try_lock k l).1 j ≡ l j
lock_others k l j other = elim (Bool-cases (l k)) [
  | inl taken ↦ rw taken refl
  | inr free ↦ rw (free, other) refl
]

pub lock_refused :
    (k : String) (l : String → Bool) (e : Error) (j : String)
    → (try_lock k l).0 ≡ err e
    → (try_lock k l).1 j ≡ l j
lock_refused k l e j h = ground arith

abbrev pub lock_laws : LockLaws locks
lock_laws = record {
  held = λ l k. l k;
  lock_was_free = λ k d l h. (lock_taken k l h).0;
  name_of = λ k. k;
  lock_names = λ k d l h. (lock_taken k l h).1;
  lock_holds = λ k d l h. lock_holds k l h;
  lock_others = λ k d l j other. lock_others k l j other;
  lock_refused = λ k d l {e} j h. lock_refused k l e j h;
  unlock_frees = λ k d l {u} h.
      ap (λ j. if str_eq j k then false else (try_lock k l).1 k) ((lock_taken k l h).1)
      ∙ rw (eq_refl k) refl;
  unlock_others = λ k l j other. rw other refl;
}

abbrev pub repo : UserRepo
repo = new_user_repo clock table calm sinks row_json redis (background calm)

abbrev pub nobody : World repo locks
nobody = record { store = start; locks = λ k. false }

abbrev alice_again : RegisterRequest
alice_again = record request { username = "alice" }

register_releases_example :
    let (res, w') = Usecase.register repo locks (new_user request) nobody in
    (w'.locks "lock:register:bob_1" ≡ false)
    × (false ≡ true → (res ≡ err err_too_many_requests) × (w'.store ≡ start))
register_releases_example =
    register_releases repo locks lock_laws (new_user request) nobody "lock:register:bob_1"

no_address : (a : String) → parse "" ≡ address a → ⊥
no_address a h = ground arith

register-Consistent_example :
    Consistent table table_laws row_laws calm_laws
      (register repo locks jwt "key" (pos 3600) request nobody (pos 5)).1.store
register-Consistent_example =
    register-Consistent table table_laws row_laws calm_laws redis (background calm) (λ k f. refl)
      calm-Up locks texts false request jwt "key" (pos 3600) nobody (pos 5) no_address
      (request_valid false) refl start-PlainIn start-Consistent
