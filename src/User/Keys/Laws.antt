-- ===== src/User/Keys/Laws.antt =====
-- The cache keys of internal/model/user/data/user_cache.go, for any names and addresses.
use Prim.Native.String
use text.Mathlib.TextLemmas.{append_cancel_left}
use kratos_layout_monolith.Prelude.{ℕ, String, ◌≡◌, ◌≢◌, sym, ap, ◌∙◌, arith, List, ◌++◌, get_or}
use kratos_layout_monolith.Prelude.Int.{ℤ, pos}
use kratos_layout_monolith.Prelude.Text.{codes, codes-append}
use kratos_layout_monolith.Prelude.Decimal.{decimal, decimal_injective}
use kratos_layout_monolith.Cache.Commands.{placeholder}
use kratos_layout_monolith.User.Keys.{
  user_cache_id_prefix, user_cache_username_prefix, user_cache_email_prefix, user_cache_id_key,
  user_cache_username_key, user_cache_email_key,
}

-- The code points of two equal joined texts.
codes_of_append :
    (s t u v : String) → String.◌++◌ s t ≡ String.◌++◌ u v → codes s ++ codes t ≡ codes u ++ codes v
codes_of_append s t u v e = sym (codes-append s t) ∙ ap codes e ∙ codes-append u v

id_ne_username : (id : ℤ) (u : String) → user_cache_id_key id ≢ user_cache_username_key u
unfolding user_cache_id_key user_cache_username_key
id_ne_username id u e =
    let h = codes_of_append user_cache_id_prefix (decimal id) user_cache_username_prefix u e in
    omega (arith, ap (λ (l : List ℕ). get_or l 12 0) h)

id_ne_email : (id : ℤ) (a : String) → user_cache_id_key id ≢ user_cache_email_key a
unfolding user_cache_id_key user_cache_email_key
id_ne_email id a e =
    let h = codes_of_append user_cache_id_prefix (decimal id) user_cache_email_prefix a e in
    omega (arith, ap (λ (l : List ℕ). get_or l 12 0) h)

username_ne_email : (u a : String) → user_cache_username_key u ≢ user_cache_email_key a
unfolding user_cache_username_key user_cache_email_key
username_ne_email u a e =
    let h = codes_of_append user_cache_username_prefix u user_cache_email_prefix a e in
    omega (arith, ap (λ (l : List ℕ). get_or l 12 0) h)

-- A key of one kind is never a key of another kind.
pub user_cache_keys_disjoint :
    (id : ℤ) (u a : String)
    → (user_cache_id_key id ≢ user_cache_username_key u)
      × (user_cache_id_key id ≢ user_cache_email_key a)
      × (user_cache_username_key u ≢ user_cache_email_key a)
user_cache_keys_disjoint id u a = (id_ne_username id u, id_ne_email id a, username_ne_email u a)

-- Two ids, two usernames or two addresses with the same key are the same.
pub user_cache_keys_injective :
    (i k : ℕ) (u v a b : String)
    → (user_cache_id_key (pos i) ≡ user_cache_id_key (pos k) → i ≡ k)
      × (user_cache_username_key u ≡ user_cache_username_key v → u ≡ v)
      × (user_cache_email_key a ≡ user_cache_email_key b → a ≡ b)
unfolding user_cache_id_key user_cache_username_key user_cache_email_key
user_cache_keys_injective i k u v a b = (
  λ e. decimal_injective i k (append_cancel_left user_cache_id_prefix _ _ e),
  λ e. append_cancel_left user_cache_username_prefix u v e,
  λ e. append_cancel_left user_cache_email_prefix a b e,
)

-- What a cache entry is filed under.
pub data Filed : Type 0 where
  under_id : ℕ → Filed
  under_username under_email : String → Filed

abbrev pub key_of : Filed → String
key_of (under_id n) = user_cache_id_key (pos n)
key_of (under_username u) = user_cache_username_key u
key_of (under_email a) = user_cache_email_key a

-- A cache key tells whether it is that of an id, a username or an address,
-- and which, where the ids are not negative.
pub key_of_injective : (a b : Filed) → key_of a ≡ key_of b → a ≡ b
key_of_injective (under_id i) (under_id k) e =
    ap under_id ((user_cache_keys_injective i k "" "" "" "").0 e)
key_of_injective (under_id i) (under_username u) e =
    absurd ((user_cache_keys_disjoint (pos i) u "").0 e)
key_of_injective (under_id i) (under_email a) e =
    absurd ((user_cache_keys_disjoint (pos i) "" a).1 e)
key_of_injective (under_username u) (under_id i) e =
    absurd ((user_cache_keys_disjoint (pos i) u "").0 (sym e))
key_of_injective (under_username u) (under_username v) e =
    ap under_username ((user_cache_keys_injective 0 0 u v "" "").1 e)
key_of_injective (under_username u) (under_email a) e =
    absurd ((user_cache_keys_disjoint (pos 0) u a).2 e)
key_of_injective (under_email a) (under_id i) e =
    absurd ((user_cache_keys_disjoint (pos i) "" a).1 (sym e))
key_of_injective (under_email a) (under_username u) e =
    absurd ((user_cache_keys_disjoint (pos 0) u a).2 (sym e))
key_of_injective (under_email a) (under_email b) e =
    ap under_email ((user_cache_keys_injective 0 0 "" "" a b).2 e)

-- A key is never the placeholder, so the entry of an index is told from it.
pub user_cache_id_key-ne-placeholder : (id : ℤ) → user_cache_id_key id ≢ placeholder
unfolding user_cache_id_key
user_cache_id_key-ne-placeholder id e =
    let h : codes user_cache_id_prefix ++ codes (decimal id) ≡ codes placeholder =
      sym (codes-append user_cache_id_prefix (decimal id)) ∙ ap codes e in
    omega (arith, ap (λ (l : List ℕ). get_or l 0 0) h)
