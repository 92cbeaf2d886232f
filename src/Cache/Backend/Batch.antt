-- ===== src/Cache/Backend/Batch.antt =====
-- The batch operations of cache/redis.py against the loops of cache/base.py that they override.
use tortoise_extended.Common.{
  ◌≡◌, refl, sym, ap, inl, inr, true, false, Option, some, List, [], ◌∷◌, ◌++◌, map, Text, All, ok,
  raised, Option-cases, Outcome-cases,
}
use tortoise_extended.Common.Int.{ℤ}
use tortoise_extended.Cache.Backend.{
  Exception, Serializer, Redis, Backend, full_key, get, set, get_many, set_many, base_get_many,
  base_set_many, collect, get_each, queue, queued, decoded, set_item, ttl_or, expiry,
  raise_serialization,
}
use tortoise_extended.Cache.Backend.Laws.{Online, all_allowed, expiry-allowed}

module _ (sz : Serializer) (redis : Redis sz.Bytes) (self : Backend) where
  open redis use {Store}

  abbrev Serializable : Text × sz.Value → Type 0
  Serializable (k, v) = (b : sz.Bytes) × (sz.dumps v ≡ ok b)

  queue-raised :
      (ttl : ℤ) (xs ys : List (Text × sz.Value)) (k : Text) (v : sz.Value) (e : Exception)
      → All Serializable xs
      → sz.dumps v ≡ raised e
      → queue sz redis self ttl (xs ++ (k, v) ∷ ys) ≡ raised e
  unfolding queue queued
  queue-raised ttl [] ys k v e h failed = rw failed refl
  queue-raised ttl ((j, w) ∷ xs) ys k v e ((b, dumped), h) failed =
      rw (dumped, queue-raised ttl xs ys k v e h failed) refl

  -- The first value that the serializer refuses ends `set_many` with the serializer's exception,
  -- translated, and nothing is written.
  pub set_many-raised :
      (xs ys : List (Text × sz.Value)) (k : Text) (v : sz.Value) (e : Exception) (ttl : Option ℤ)
      (s : Store)
      → All Serializable xs
      → sz.dumps v ≡ raised e
      → set_many sz redis self (xs ++ (k, v) ∷ ys) ttl s ≡ (raised (raise_serialization e), s)
  unfolding set_many
  set_many-raised [] ys k v e ttl s h failed =
      rw (queue-raised (ttl_or ttl self.default_ttl) [] ys k v e h failed) refl
  set_many-raised (x ∷ xs) ys k v e ttl s h failed =
      rw (queue-raised (ttl_or ttl self.default_ttl) (x ∷ xs) ys k v e h failed) refl

  module _ (up : Online sz.Bytes redis) where
    queue_lem :
        (mapping : List (Text × sz.Value)) (ttl : Option ℤ)
        → All Serializable mapping
        → (ops : List (Text × sz.Bytes × Option ℤ)) × (queue sz redis self
              (ttl_or ttl self.default_ttl)
              mapping
            ≡ ok ops)
          × (all_allowed ops ≡ true)
          × ((s : Store)
              → base_set_many sz (get sz redis self) (set sz redis self) mapping ttl s
                ≡ (ok tt, up.executed ops s))
    unfolding queue queued base_set_many set
    queue_lem [] ttl h = ([], refl, refl, λ s. ap (λ t. (ok tt, t)) (sym (up.executed-nil s)))
    queue_lem ((k, v) ∷ mapping) ttl ((b, dumped), h) =
        let (ops, filled, fine, same) = queue_lem mapping ttl h in
        let ex : Option ℤ = expiry (ttl_or ttl self.default_ttl) in
        let key : Text = full_key self.namespace k in
        (
          (key, b, ex) ∷ ops,
          rw (dumped, filled) refl,
          rw (expiry-allowed (ttl_or ttl self.default_ttl)) fine,
          λ s.
              rw
                (
                  dumped,
                  up.set_lem key b ex s (expiry-allowed (ttl_or ttl self.default_ttl)),
                  same (up.written key b ex s),
                  up.executed-cons key b ex ops s,
                )
                refl,
        )

    -- While the driver is online, `set_many` of values that the serializer takes leaves the store that
    -- the inherited loop of `set` leaves.
    pub set_many-base_set_many :
        (mapping : List (Text × sz.Value)) (ttl : Option ℤ) (s : Store)
        → All Serializable mapping
        → (s' : Store) × (set_many sz redis self mapping ttl s ≡ (ok tt, s'))
          × (base_set_many sz (get sz redis self) (set sz redis self) mapping ttl s ≡ (ok tt, s'))
    unfolding set_many base_set_many
    set_many-base_set_many [] ttl s h = (s, refl, refl)
    set_many-base_set_many (x ∷ mapping) ttl s h =
        let (ops, filled, fine, same) = queue_lem (x ∷ mapping) ttl h in
        (up.executed ops s, rw (filled, up.execute_lem ops s fine) refl, same s)

    abbrev HasNoNull : Store → Type 0
    HasNoNull s =
        (k : Text) (b : sz.Bytes) (v : sz.Value)
        → up.value s k ≡ some b
        → sz.loads b ≡ ok v
        → sz.is_null v ≡ false

    collect_lem :
        (keys : List Text) (result : List (Text × sz.Value)) (s : Store)
        → sz.is_null sz.null ≡ true
        → HasNoNull s
        → collect sz redis self keys
            (map (up.value s) (map (full_key self.namespace) keys))
            result
            s
          ≡ get_each sz (get sz redis self) (set sz redis self) keys result s
    unfolding collect get_each get decoded
    collect_lem [] result s nul full = refl
    collect_lem (k ∷ keys) result s nul full =
        let key : Text = full_key self.namespace k in
        elim (Option-cases (up.value s key)) [
          | inl gone ↦ rw (up.get_lem key s, gone, nul) (collect_lem keys result s nul full)
          | inr (b, held) ↦ elim (Outcome-cases (sz.loads b)) [
            | inl (v, loaded) ↦
                rw (up.get_lem key s, held, loaded, full key b v held loaded)
                  (collect_lem keys (set_item k v result) s nul full)
            | inr (e, failed) ↦ rw (up.get_lem key s, held, failed) refl
          ]
        ]

    -- While the driver is online, `get_many` in one round trip returns, or raises, what the inherited
    -- loop of `get` does, on a store with no stored null.
    pub get_many-base_get_many :
        (keys : List Text) (s : Store)
        → sz.is_null sz.null ≡ true
        → HasNoNull s
        → get_many sz redis self keys s
          ≡ base_get_many sz (get sz redis self) (set sz redis self) keys s
    unfolding get_many base_get_many
    get_many-base_get_many [] s nul full = refl
    get_many-base_get_many (k ∷ keys) s nul full =
        rw (up.mget_lem (full_key self.namespace k) (map (full_key self.namespace) keys) s)
          (collect_lem (k ∷ keys) [] s nul full)
