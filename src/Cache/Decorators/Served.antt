-- ===== src/Cache/Decorators/Served.antt =====
-- What a decorated function returns and when it runs: cache/decorators.py over the backend of
-- cache/redis.py (under src/tortoise_extended).
use tortoise_extended.Common.{
  ◌≡◌, refl, sym, ◌∙◌, inl, inr, Bool, true, false, Option, none, some, Text, Outcome, ok, raised,
  Bool-cases, text_eq_refl,
}
use tortoise_extended.Common.Actions.{Act, pure, continue}
use tortoise_extended.Common.Int.{ℤ}
use tortoise_extended.Cache.Backend.{
  Exception, Serializer, Redis, Backend, get, set, delete, full_key,
}
use tortoise_extended.Cache.Backend.Laws.{Online, get-set}
use tortoise_extended.Cache.Decorators.{
  is_cache_error, suppressed, store, miss, after_read, through_cache, wrapper, invalidate_cached,
}

module _ {S : Type 0} where
  -- The cache fails with nothing but cache errors.
  abbrev pub IsMild : {A : Type 0} → Outcome Exception A × S → Type 0
  IsMild (ok a, s) = Unit
  IsMild (raised e, s) = is_cache_error e ≡ true

  pub stored :
      {Value : Type 0} (v : Value) (p : Outcome Exception (Unit {0}) × S)
      → IsMild p
      → (continue (suppressed p) (λ _. pure v)).0 ≡ ok v
  stored v (ok a, s) h = refl
  stored v (raised e, s) h = rw h refl

module _ {S Value : Type 0} (is_null : Value → Bool) (get : Text → Act S Exception Value)
    (set : Text → Value → Option ℤ → Act S Exception (Unit {0})) (ttl : ℤ) (key : Text) where
  store-result :
      (v : Value) (s : S)
      → IsMild (set key v (some ttl) s)
      → (store is_null get set ttl key v s).0 ≡ ok v
  unfolding store
  store-result v s h = elim (Bool-cases (is_null v)) [
    | inl e ↦ rw e refl
    | inr e ↦ rw e (stored v (set key v (some ttl) s) h)
  ]

  missed :
      (p : Outcome Exception Value × S)
      → ((v : Value) (s : S) → IsMild (set key v (some ttl) s))
      → (continue p (store is_null get set ttl key)).0 ≡ p.0
  missed (ok v, s) h = store-result v s (h v s)
  missed (raised e, s) h = refl

  miss-result :
      (func : Act S Exception Value) (s : S)
      → ((v : Value) (s : S) → IsMild (set key v (some ttl) s))
      → (miss is_null get set ttl key func s).0 ≡ (func s).0
  unfolding miss
  miss-result func s h = missed (func s) h

  through_cache-result :
      (func : Act S Exception Value) (o : Outcome Exception Value) (s : S)
      → ((s : S) → (func s).0 ≡ o)
      → ((v : Value) → (get key s).0 ≡ ok v → is_null v ≡ false → o ≡ ok v)
      → IsMild (get key s)
      → ((v : Value) (s : S) → IsMild (set key v (some ttl) s))
      → (through_cache is_null get set ttl key func s).0 ≡ o
  unfolding through_cache
  through_cache-result func o s same sound mild h = read (get key s) sound mild
    where
      read :
          (p : Outcome Exception Value × S)
          → ((v : Value) → p.0 ≡ ok v → is_null v ≡ false → o ≡ ok v)
          → IsMild p
          → (after_read is_null get set ttl key func p).0 ≡ o
      read (ok v, s) held m = elim (Bool-cases (is_null v)) [
        | inl e ↦ rw e (miss-result func s h ∙ same s)
        | inr e ↦ rw e (sym (held v refl e))
      ]
      read (raised e, s) held m = rw m (miss-result func s h ∙ same s)

module _ {S Connection Value : Type 0} (is_null : Value → Bool)
    (get : Connection → Text → Act S Exception Value)
    (set : Connection → Text → Value → Option ℤ → Act S Exception (Unit {0})) (ttl : ℤ)
    (get_backend : Act S Exception Connection) where
  -- A call that no other overlaps of a decorated function, for which there are a backend and a key,
  -- returns what the function returns undecorated, and raises what it raises, if the outcome of the
  -- function does not depend on the state, a value that the cache holds for the key is its result,
  -- and reading and writing the cache raises nothing but `CacheError`. Without a backend it raises
  -- what `get_backend` raises, a `CacheError` included, and the function does not run.
  pub wrapper-transparent :
      (func : Act S Exception Value) (o : Outcome Exception Value) (backend : Connection)
      (key : Text) (s t r w : S) (e : Exception) (other : Outcome Exception Text)
      → get_backend s ≡ (ok backend, t)
      → ((s : S) → (func s).0 ≡ o)
      → ((v : Value) → (get backend key t).0 ≡ ok v → is_null v ≡ false → o ≡ ok v)
      → IsMild (get backend key t)
      → ((v : Value) (s : S) → IsMild (set backend key v (some ttl) s))
      → get_backend r ≡ (raised e, w)
      → ((wrapper is_null get set ttl get_backend (ok key) func s).0 ≡ o)
        × (wrapper is_null get set ttl get_backend other func r ≡ (raised e, w))
  unfolding wrapper
  wrapper-transparent func o backend key s t r w e other there same sound mild h missing = (
    rw there (
        through_cache-result is_null (get backend) (set backend) ttl key func o t same sound mild
          h),
    rw missing refl,
  )

module _ (sz : Serializer) (redis : Redis sz.Bytes) (up : Online sz.Bytes redis) (self : Backend)
    (ttl : ℤ) (key : Text) where
  open redis use {Store}

  abbrev pub call : Act Store Exception sz.Value → Act Store Exception sz.Value
  call func = wrapper sz.is_null (get sz redis) (set sz redis) ttl (pure self) (ok key) func

  abbrev pub compute : Act Store Exception sz.Value → Act Store Exception sz.Value
  compute func = miss sz.is_null (get sz redis self) (set sz redis self) ttl key func

  abbrev pub uncache : Act Store Exception (Unit {0})
  uncache = invalidate_cached (delete sz redis) (delete sz redis) (pure self) (ok key)

  pub get-absent :
      (s : Store)
      → up.value s (full_key self.namespace key) ≡ none
      → get sz redis self key s ≡ (ok sz.null, s)
  unfolding get
  get-absent s e = rw (up.get_lem (full_key self.namespace key) s, e) refl

  call-absent :
      (func : Act Store Exception sz.Value) (s : Store)
      → sz.is_null sz.null ≡ true
      → up.value s (full_key self.namespace key) ≡ none
      → call func s ≡ compute func s
  unfolding wrapper through_cache
  call-absent func s nul e = rw (get-absent s e, nul) refl

  call-held :
      (func : Act Store Exception sz.Value) (v : sz.Value) (s : Store)
      → sz.is_null v ≡ false
      → get sz redis self key s ≡ (ok v, s)
      → call func s ≡ (ok v, s)
  unfolding wrapper through_cache
  call-held func v s full e = rw (e, full) refl

  compute-ok :
      (func : Act Store Exception sz.Value) (v : sz.Value) (s t u : Store)
      → sz.is_null v ≡ false
      → func s ≡ (ok v, t)
      → set sz redis self key v (some ttl) t ≡ (ok tt, u)
      → compute func s ≡ (ok v, u)
  unfolding miss store
  compute-ok func v s t u full e f = rw (e, full, f) refl

  -- While the driver is online: a call that finds nothing in the cache runs the function, and if
  -- its result is not null and the serializer takes it and gives it back, the next call returns it
  -- without running the function; once the key is invalidated, the next call runs the function
  -- again.
  pub call-served :
      (func : Act Store Exception sz.Value) (v : sz.Value) (bytes : sz.Bytes) (s t : Store)
      → sz.is_null sz.null ≡ true
      → sz.is_null v ≡ false
      → sz.dumps v ≡ ok bytes
      → sz.loads bytes ≡ ok v
      → up.value s (full_key self.namespace key) ≡ none
      → func s ≡ (ok v, t)
      → (u : Store) × (call func s ≡ (ok v, u))
        × ((other : Act Store Exception sz.Value) → call other u ≡ (ok v, u))
        × ((w : Store) × (uncache u ≡ (ok tt, w))
            × ((other : Act Store Exception sz.Value) → call other w ≡ compute other w))
  unfolding invalidate_cached delete
  call-served func v bytes s t nul full dumped loaded absent runs =
      let k : Text = full_key self.namespace key in
      let (u, wrote, reads) = get-set sz redis up self key v bytes (some ttl) t dumped loaded in
      let gone : up.value (up.deleted k u) k ≡ none =
        rw (up.value-deleted k k u, text_eq_refl k) refl in
      (
        u,
        call-absent func s nul absent ∙ compute-ok func v s t u full runs wrote,
        (λ other. call-held other v u full reads),
        (
          up.deleted k u,
          rw (up.delete_lem k u) refl,
          λ other. call-absent other (up.deleted k u) nul gone,
        ),
      )
