-- ===== src/Models/Cacheable/Operations/Fresh.antt =====
-- The operations of models/cacheable_model.py composed with its cache records and with the backend of
-- cache/redis.py (under src/tortoise_extended): a read of the primary key after a refresh and after a
-- write.
use tortoise_extended.Common.{
  ◌≡◌, refl, true, Option, none, some, List, [], ◌∷◌, Text, codes, Outcome, ok, text_eq_refl,
}
use tortoise_extended.Common.Actions.{Act, pure, and_then}
use tortoise_extended.Common.Int.{ℤ, is_positive}
use tortoise_extended.Cache.Backend.{
  Exception, Serializer, Redis, Backend, get, set, delete, decoded, full_key, expiry,
}
use tortoise_extended.Cache.Backend.Laws.{Online, expiry-allowed}
use tortoise_extended.Cache.Decorators.Served.{get-absent}
use tortoise_extended.Models.Cacheable.{Value, FieldType, Parsers, Attribute, to_cache, from_cache}
use tortoise_extended.Models.Cacheable.Operations.{
  Cached, absent, dict, cache_key_for, at_key, query_one, one_read, read_one, get_cached, pk_name,
  refresh_from_db, invalidate_cache, write_through,
}
use tortoise_extended.Models.Cacheable.Operations.Keys.{cache_key_for-ok}

-- The model: its name, its key and what its fields are, an instance's attributes and its key as
-- text, and `construct`.
pub record CachedModel (P Instance : Type 0) : Type 0 where
  pub name : Text
  pub pk_attr : Text
  pub fields : List Text
  pub fields_map : Text → Option FieldType
  pub getattr : Instance → Text → Attribute P
  pub pk : Instance → Text
  pub construct : List (Text × Value P) → Instance

abbrev pub Record : Type 0 → Type 0
Record P = List (Text × Value P)

-- `classify` tells which values of the serializer are records, `embed` gives it one.
module _ {P V Instance : Type 0} (py : Parsers P) (cls : CachedModel P Instance) (str : V → Text)
    (sz : Serializer) (redis : Redis sz.Bytes) (up : Online sz.Bytes redis) (self : Backend)
    (classify : sz.Value → Cached (Record P)) (embed : Cached (Record P) → sz.Value)
    (cache_ttl : ℤ) where
  open redis use {Store}

  abbrev pub put_record : Instance → Record P
  put_record i = to_cache py cls.name (cls.pk i) cls.fields (cls.getattr i)

  -- The instance that `_from_cache` constructs.
  abbrev pub proxy : Record P → Instance
  proxy saved = cls.construct (from_cache py cls.pk_attr cls.fields_map saved)

  abbrev pub taken : Record P → Outcome Exception Instance
  taken saved = ok (proxy saved)

  abbrev pub fetch : Backend → Text → Act Store Exception (Cached (Record P))
  fetch b key = and_then (get sz redis b key) λ v. pure (classify v)

  abbrev pub put : Backend → Text → Cached (Record P) → ℤ → Act Store Exception (Unit {0})
  put b key c ttl = set sz redis b key (embed c) (some ttl)

  abbrev pub from_cached :
      List (Text × V)
      → Act Store Exception (Option Instance)
      → Act Store Exception (Option Instance)
  from_cached kwargs find =
      get_cached str cls.name put_record taken fetch put cache_ttl (pure self) kwargs find

  -- What `get_cached` does on a miss.
  abbrev pub from_database :
      List (Text × V)
      → Act Store Exception (Option Instance)
      → Act Store Exception (Option Instance)
  from_database kwargs find =
      at_key str cls.name (codes "get") kwargs
        λ key. query_one put_record taken (fetch self) (put self) cache_ttl key find

  abbrev pub refreshed : Act Store Exception Instance → V → Act Store Exception Instance
  refreshed reload pk =
      refresh_from_db str cls.name put_record taken fetch put cache_ttl (pure self) reload
        cls.pk_attr pk

  abbrev pub saved : Act Store Exception (Unit {0}) → V → Act Store Exception (Unit {0})
  saved statement pk =
      write_through str cls.name (delete sz redis) cache_ttl (pure self) statement cls.pk_attr pk

  fetched-absent :
      (kwargs : List (Text × V)) (find : Act Store Exception (Option Instance)) (key : Text)
      (s : Store)
      → is_positive cache_ttl ≡ true
      → classify sz.null ≡ absent
      → cache_key_for str cls.name (codes "get") kwargs ≡ ok key
      → up.value s (full_key self.namespace key) ≡ none
      → from_cached kwargs find s ≡ from_database kwargs find s
  unfolding get_cached at_key one_read read_one
  fetched-absent kwargs find key s on null e gone =
      rw (on, e, get-absent sz redis up self cache_ttl key s gone, null) refl

  fetched-held :
      (kwargs : List (Text × V)) (find : Act Store Exception (Option Instance)) (key : Text)
      (v : sz.Value) (back : Record P) (bytes : sz.Bytes) (s : Store)
      → is_positive cache_ttl ≡ true
      → cache_key_for str cls.name (codes "get") kwargs ≡ ok key
      → up.value s (full_key self.namespace key) ≡ some bytes
      → sz.loads bytes ≡ ok v
      → classify v ≡ dict back
      → from_cached kwargs find s ≡ (ok (some (proxy back)), s)
  unfolding get_cached at_key one_read read_one get decoded
  fetched-held kwargs find key v back bytes s on e held loaded kept =
      rw (on, e, up.get_lem (full_key self.namespace key) s, held, loaded, kept) refl

  saved-lem :
      (statement : Act Store Exception (Unit {0})) (pk : V) (key : Text) (s t : Store)
      → is_positive cache_ttl ≡ true
      → cache_key_for str cls.name (codes "get") ((pk_name cls.pk_attr, pk) ∷ []) ≡ ok key
      → statement s ≡ (ok tt, t)
      → saved statement pk s ≡ (ok tt, up.deleted (full_key self.namespace key) t)
  unfolding write_through invalidate_cache at_key delete
  saved-lem statement pk key s t on e ran =
      rw (ran, on, e, up.delete_lem (full_key self.namespace key) t) refl

  put-lem :
      (key : Text) (c : Cached (Record P)) (bytes : sz.Bytes) (s : Store)
      → sz.dumps (embed c) ≡ ok bytes
      → put self key c cache_ttl s
        ≡ (ok tt, up.written (full_key self.namespace key) bytes (expiry cache_ttl) s)
  unfolding set
  put-lem key c bytes s dumped =
      rw
        (
          dumped,
          up.set_lem (full_key self.namespace key) bytes (expiry cache_ttl) s
              (expiry-allowed cache_ttl),
        )
        refl

  refreshed-lem :
      (reload : Act Store Exception Instance) (pk : V) (key : Text) (i : Instance) (s t u : Store)
      → is_positive cache_ttl ≡ true
      → cache_key_for str cls.name (codes "get") ((pk_name cls.pk_attr, pk) ∷ []) ≡ ok key
      → reload s ≡ (ok i, t)
      → put self key (dict (put_record i)) cache_ttl t ≡ (ok tt, u)
      → refreshed reload pk s ≡ (ok i, u)
  unfolding refresh_from_db at_key
  refreshed-lem reload pk key i s t u on e ran wrote = rw (ran, on, e, wrote) refl

  -- While the driver is online, for a model with a backend and a time to live: after
  -- `refresh_from_db`, `get_cached` by the primary key returns, without asking the database, what
  -- `construct` makes of `_from_cache` of the record that the serializer gives back for `_to_cache`
  -- of the refreshed instance; after `save` or `delete`, whose statement the database takes,
  -- `get_cached` by the primary key asks the database.
  pub refresh-save :
      (reload : Act Store Exception Instance) (statement : Act Store Exception (Unit {0})) (pk : V)
      (i : Instance) (bytes : sz.Bytes) (v : sz.Value) (back : Record P) (s t r w : Store)
      → is_positive cache_ttl ≡ true
      → classify sz.null ≡ absent
      → sz.dumps (embed (dict (put_record i))) ≡ ok bytes
      → sz.loads bytes ≡ ok v
      → classify v ≡ dict back
      → reload s ≡ (ok i, t)
      → statement r ≡ (ok tt, w)
      → ((u : Store) × (refreshed reload pk s ≡ (ok i, u))
          × ((find : Act Store Exception (Option Instance))
              → from_cached ((pk_name cls.pk_attr, pk) ∷ []) find u ≡ (ok (some (proxy back)), u)))
        × ((u : Store) × (saved statement pk r ≡ (ok tt, u))
            × ((find : Act Store Exception (Option Instance))
                → from_cached ((pk_name cls.pk_attr, pk) ∷ []) find u
                  ≡ from_database ((pk_name cls.pk_attr, pk) ∷ []) find u))
  refresh-save reload statement pk i bytes v back s t r w on null dumped loaded kept ran done =
      let by_pk : List (Text × V) = (pk_name cls.pk_attr, pk) ∷ [] in
      let (key, e) = cache_key_for-ok str cls.name (codes "get") by_pk in
      let k : Text = full_key self.namespace key in
      let u : Store = up.written k bytes (expiry cache_ttl) t in
      (
        (
          u,
          refreshed-lem reload pk key i s t u on e ran
              (put-lem key (dict (put_record i)) bytes t dumped),
          λ find.
              fetched-held by_pk find key v back bytes u on e
                (rw (up.value-written k k bytes (expiry cache_ttl) t, text_eq_refl k) refl) loaded
                kept,
        ),
        (
          up.deleted k w,
          saved-lem statement pk key r w on e done,
          λ find.
              fetched-absent by_pk find key (up.deleted k w) on null e
                (rw (up.value-deleted k k w, text_eq_refl k) refl),
        ),
      )
