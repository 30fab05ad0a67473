-- ===== src/Cache/Coherence.antt =====
-- When an entry of the cache is right: it is the image of the database at its key. What Redis
-- documents, and the commands of internal/pkg/cache/cache.go on right entries.
use kratos_layout_monolith.Prelude.{
  String, Option, none, some, List, [], ◌∷◌, ◌≡◌, ◌≢◌, ◌⊎◌, inl, inr, ◌∙◌,
}
use kratos_layout_monolith.Prelude.Int.{ℤ}
use kratos_layout_monolith.Errors.{ok}
use kratos_layout_monolith.External.Redis.{Externals}
use kratos_layout_monolith.Cache.Metrics.Collector.{Sinks}
use kratos_layout_monolith.Cache.State.{Redis, State, Context}
use kratos_layout_monolith.Cache.Commands.{
  placeholder, cache_get, cache_set, cache_set_not_found, cache_del,
}
use kratos_layout_monolith.Cache.Commands.Frame.{
  cache_get-Framed, cache_set-Framed, cache_set_not_found-Framed, cache_del-Framed, net-cache_get,
  net-cache_set, net-cache_set_not_found, net-cache_del, cache_get_reply, ttl_of, placeholder_ttl,
}

abbrev pub Among : String → List String → Type 0
Among k [] = ⊥
Among k (j ∷ ks) = (k ≡ j) ⊎ Among k ks

-- What Redis documents, for a server that may also expire or evict an entry at any time, and for
-- commands that may fail after they took effect.
pub record NetLaws (x : Externals) : Type 1 where
  pub contents : x.Net → String → Option String
  pub get_reads :
      (ctx : Context x) (k : String) (n : x.Net) {d : String}
      → (x.get ctx k n).0 ≡ ok d
      → contents n k ≡ some d
  pub get_keeps :
      (ctx : Context x) (k : String) (n : x.Net) (i d : String)
      → contents (x.get ctx k n).1 i ≡ some d
      → contents n i ≡ some d
  pub set_keeps :
      (ctx : Context x) (k v : String) (t : ℤ) (n : x.Net) (i d : String)
      → contents (x.set ctx k v t n).1 i ≡ some d
      → (contents n i ≡ some d) ⊎ ((i ≡ k) × (d ≡ v))
  pub set_nx_keeps :
      (ctx : Context x) (k v : String) (t : ℤ) (n : x.Net) (i d : String)
      → contents (x.set_nx ctx k v t n).1 i ≡ some d
      → (contents n i ≡ some d) ⊎ ((i ≡ k) × (d ≡ v))
  pub del_keeps :
      (ctx : Context x) (ks : List String) (n : x.Net) (i d : String)
      → contents (x.del ctx ks n).1 i ≡ some d
      → contents n i ≡ some d
  pub del_drops :
      (ctx : Context x) (ks : List String) (n : x.Net) (i : String)
      → (x.del ctx ks n).0 ≡ ok tt
      → Among i ks
      → contents (x.del ctx ks n).1 i ≡ none

-- What the cache may hold at each key.
abbrev pub Image : Type 0
Image = String → Option String

abbrev pub Coherent : {x : Externals} → NetLaws x → Image → x.Net → Type 0
Coherent laws image n = (k d : String) → laws.contents n k ≡ some d → image k ≡ some d

module _ {x : Externals} {m : Sinks} {D : Type 0} (laws : NetLaws x) (image : Image) (r : Redis)
    (ctx : Context x) (s : State x m D) (c : Coherent laws image s.net) where
  pub cache_get-Coherent : (k : String) → Coherent laws image (cache_get x m r ctx k s).1.net
  cache_get-Coherent k i d h = elim (net-cache_get r ctx s k) [
    | inl e ↦ c i d (rw e at h)
    | inr e ↦ c i d (laws.get_keeps ctx k s.net i d (rw e at h))
  ]

  -- Data that are not empty are the image.
  pub cache_get_image :
      (k : String) {d : String} → (cache_get x m r ctx k s).0 ≡ ok d → d ≢ "" → image k ≡ some d
  cache_get_image k {d} h ne = c k d (laws.get_reads ctx k s.net (cache_get_reply r ctx s k h ne))

  pub cache_set-Coherent :
      (k v : String) (t : ℤ)
      → image k ≡ some v
      → Coherent laws image (cache_set x m r ctx k v t s).1.net
  cache_set-Coherent k v t right i d h = elim (net-cache_set r ctx s k v t) [
    | inl e ↦ c i d (rw e at h)
    | inr e ↦ elim (laws.set_keeps ctx k v (ttl_of r ctx s t) s.net i d (rw e at h)) [
      | inl old ↦ c i d old
      | inr (same_key, same_data) ↦ rw (same_key, same_data) right
    ]
  ]

  pub cache_set_not_found-Coherent :
      (k : String)
      → image k ≡ some placeholder
      → Coherent laws image (cache_set_not_found x m r ctx k s).net
  cache_set_not_found-Coherent k right i d h = elim (net-cache_set_not_found r ctx s k) [
    | inl e ↦ c i d (rw e at h)
    | inr e ↦
        elim (laws.set_nx_keeps ctx k placeholder (placeholder_ttl r ctx s) s.net i d (rw e at h)) [
          | inl old ↦ c i d old
          | inr (same_key, same_data) ↦ rw (same_key, same_data) right
        ]
  ]

  pub cache_del-Coherent : (ks : List String) → Coherent laws image (cache_del x m r ctx ks s).1.net
  cache_del-Coherent ks i d h = elim (net-cache_del r ctx s ks) [
    | inl e ↦ c i d (rw e at h)
    | inr e ↦ c i d (laws.del_keeps ctx ks s.net i d (rw e at h))
  ]

-- Where a call stands: the database as it was, and only right entries.
abbrev pub Holds :
    {x : Externals} {m : Sinks} {D : Type 0} → NetLaws x → Image → D → State x m D → Type 0
Holds laws image db s = Coherent laws image s.net × (s.db ≡ db)

module _ {x : Externals} {m : Sinks} {D : Type 0} (laws : NetLaws x) (image : Image) (db : D)
    (r : Redis) (ctx : Context x) where
  pub cache_get-Holds :
      (k : String) (s : State x m D)
      → Holds laws image db s
      → Holds laws image db (cache_get x m r ctx k s).1
  cache_get-Holds k s h =
      (cache_get-Coherent laws image r ctx s h.0 k, (cache_get-Framed r ctx s k).0 ∙ h.1)

  pub cache_set-Holds :
      (k v : String) (t : ℤ) (s : State x m D)
      → image k ≡ some v
      → Holds laws image db s
      → Holds laws image db (cache_set x m r ctx k v t s).1
  cache_set-Holds k v t s right h = (
    cache_set-Coherent laws image r ctx s h.0 k v t right,
    (cache_set-Framed r ctx s k v t).0 ∙ h.1,
  )

  pub cache_set_not_found-Holds :
      (k : String) (s : State x m D)
      → image k ≡ some placeholder
      → Holds laws image db s
      → Holds laws image db (cache_set_not_found x m r ctx k s)
  cache_set_not_found-Holds k s right h = (
    cache_set_not_found-Coherent laws image r ctx s h.0 k right,
    (cache_set_not_found-Framed r ctx s k).0 ∙ h.1,
  )

  pub cache_del-Holds :
      (ks : List String) (s : State x m D)
      → Holds laws image db s
      → Holds laws image db (cache_del x m r ctx ks s).1
  cache_del-Holds ks s h =
      (cache_del-Coherent laws image r ctx s h.0 ks, (cache_del-Framed r ctx s ks).0 ∙ h.1)
