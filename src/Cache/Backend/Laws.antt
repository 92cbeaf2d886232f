-- ===== src/Cache/Backend/Laws.antt =====
-- Reading back what a backend of cache/redis.py wrote, and its namespaces. A driver that is online
-- answers every call from a table of its keys.
use tortoise_extended.Common.{
  ◌≡◌, refl, ap, ◌≢◌, ◌⊎◌, inl, inr, Bool, true, false, ◌&&◌, Option, none, some, List, [], ◌∷◌,
  map, Text, text_eq, text_eq_refl, text_eq_iff, Lacks, if◌then◌else◌, Bool-cases, Outcome, ok,
  raised,
}
use tortoise_extended.Common.Actions.{lift, except}
use tortoise_extended.Common.Int.{ℤ, is_positive}
use tortoise_extended.Cache.Backend.{
  Exception, Serializer, Redis, Backend, full_key, decoded, get, set, ttl_or, expiry,
  raise_serialization,
}

abbrev pub is_some {ℓ} : {A : Type ℓ} → Option A → Bool
is_some none = false
is_some (some _) = true

-- What `SET … EX` takes: no time to live, or one above zero.
abbrev pub allowed : Option ℤ → Bool
allowed none = true
allowed (some ttl) = is_positive ttl

pub expiry-allowed : (ttl : ℤ) → allowed (expiry ttl) ≡ true
expiry-allowed ttl = elim (Bool-cases (is_positive ttl)) [
  | inl above ↦ rw (above, above) refl
  | inr not_above ↦ rw not_above refl
]

abbrev pub all_allowed : {Bytes : Type 0} → List (Text × Bytes × Option ℤ) → Bool
all_allowed [] = true
all_allowed ((k, b, ex) ∷ ops) = allowed ex && all_allowed ops

-- The server answers; `SET` refuses a time to live that is not above zero and `MGET` needs a key,
-- so the laws say nothing of those calls.
pub record Online (Bytes : Type 0) (redis : Redis Bytes) : Type 0 where
  pub value : redis.Store → Text → Option Bytes
  pub written : Text → Bytes → Option ℤ → redis.Store → redis.Store
  pub deleted : Text → redis.Store → redis.Store
  pub executed : List (Text × Bytes × Option ℤ) → redis.Store → redis.Store
  pub get_lem : (k : Text) (s : redis.Store) → redis.get k s ≡ (ok (value s k), s)
  pub mget_lem :
      (k : Text) (ks : List Text) (s : redis.Store)
      → redis.mget (k ∷ ks) s ≡ (ok (map (value s) (k ∷ ks)), s)
  pub set_lem :
      (k : Text) (b : Bytes) (ex : Option ℤ) (s : redis.Store)
      → allowed ex ≡ true
      → redis.set k b ex s ≡ (ok tt, written k b ex s)
  pub delete_lem :
      (k : Text) (s : redis.Store)
      → redis.delete k s ≡ (ok (if is_some (value s k) then 1 else 0), deleted k s)
  pub execute_lem :
      (ops : List (Text × Bytes × Option ℤ)) (s : redis.Store)
      → all_allowed ops ≡ true
      → redis.execute ops s ≡ (ok tt, executed ops s)
  pub executed-nil : (s : redis.Store) → executed [] s ≡ s
  pub executed-cons :
      (k : Text) (b : Bytes) (ex : Option ℤ) (ops : List (Text × Bytes × Option ℤ))
      (s : redis.Store)
      → executed ((k, b, ex) ∷ ops) s ≡ executed ops (written k b ex s)
  pub value-written :
      (k j : Text) (b : Bytes) (ex : Option ℤ) (s : redis.Store)
      → value (written k b ex s) j ≡ (if text_eq k j then some b else value s j)
  pub value-deleted :
      (k j : Text) (s : redis.Store)
      → value (deleted k s) j ≡ (if text_eq k j then none else value s j)

-- A full key says its namespace and its key, where namespaces have no colon.
pub full_key_injective :
    (n m k j : Text) → Lacks b':' n → Lacks b':' m → full_key n k ≡ full_key m j → (n ≡ m) × (k ≡ j)
full_key_injective [] [] k j h g e = (refl, cc)
full_key_injective [] (d ∷ m) k j h g e = absurd (g.0 (cc))
full_key_injective (c ∷ n) [] k j h g e = absurd (h.0 (cc))
full_key_injective (c ∷ n) (d ∷ m) k j h g e =
    let (p, q) = full_key_injective n m k j h.1 g.1 (cc) in (cc (p), q)

module _ (sz : Serializer) (redis : Redis sz.Bytes) (up : Online sz.Bytes redis) where
  open redis use {Store}

  -- Decoding touches no state.
  pub decoded_lem :
      (self : Backend) (o : Option sz.Bytes) (s t : Store)
      → decoded sz redis self o s ≡ ((decoded sz redis self o t).0, s)
  unfolding decoded
  decoded_lem self none s t = refl
  decoded_lem self (some b) s t = plain (sz.loads b)
    where
      plain :
          (o : Outcome Exception sz.Value)
          → except raise_serialization (lift o) s
            ≡ ((except raise_serialization (lift {S = Store} o) t).0, s)
      plain (ok v) = refl
      plain (raised e) = refl

  -- A value that the serializer takes and gives back is read back after it is set, whatever the time
  -- to live, while the driver is online.
  pub get-set :
      (self : Backend) (key : Text) (v : sz.Value) (bytes : sz.Bytes) (ttl : Option ℤ) (s : Store)
      → sz.dumps v ≡ ok bytes
      → sz.loads bytes ≡ ok v
      → (s' : Store) × (set sz redis self key v ttl s ≡ (ok tt, s'))
        × (get sz redis self key s' ≡ (ok v, s'))
  unfolding set get
  get-set self key v bytes ttl s dumped loaded =
      let k : Text = full_key self.namespace key in
      let ex : Option ℤ = expiry (ttl_or ttl self.default_ttl) in
      (
        up.written k bytes ex s,
        rw (dumped, up.set_lem k bytes ex s (expiry-allowed (ttl_or ttl self.default_ttl))) refl,
        rw
            (
              up.get_lem k (up.written k bytes ex s),
              up.value-written k k bytes ex s,
              text_eq_refl k,
              loaded,
            )
            refl,
      )

  -- While the driver is online, setting a key to a value that the serializer takes leaves what any
  -- other key reads as it was, and what every key of a backend of another namespace reads, if the
  -- namespaces have no colon.
  pub get-set_apart :
      (a b : Backend) (key other : Text) (v : sz.Value) (bytes : sz.Bytes) (ttl : Option ℤ)
      (s : Store)
      → sz.dumps v ≡ ok bytes
      → Lacks b':' a.namespace
      → Lacks b':' b.namespace
      → (a.namespace ≢ b.namespace) ⊎ (key ≢ other)
      → (s' : Store) × (set sz redis a key v ttl s ≡ (ok tt, s'))
        × ((get sz redis b other s').0 ≡ (get sz redis b other s).0)
  unfolding set get
  get-set_apart a b key other v bytes ttl s dumped ha hb apart =
      let k : Text = full_key a.namespace key in
      let j : Text = full_key b.namespace other in
      let ex : Option ℤ = expiry (ttl_or ttl a.default_ttl) in
      (
        up.written k bytes ex s,
        rw (dumped, up.set_lem k bytes ex s (expiry-allowed (ttl_or ttl a.default_ttl))) refl,
        rw
            (
              up.get_lem j (up.written k bytes ex s),
              up.get_lem j s,
              up.value-written k j bytes ex s,
              differ apart,
            )
            (ap (λ x. x.0) (decoded_lem b (up.value s j) (up.written k bytes ex s) s)),
      )
    where
      differ :
          (a.namespace ≢ b.namespace) ⊎ (key ≢ other)
          → text_eq (full_key a.namespace key) (full_key b.namespace other) ≡ false
      differ d =
          elim (Bool-cases (text_eq (full_key a.namespace key) (full_key b.namespace other))) [
            | inl same ↦
                let (p, q) =
                  full_key_injective a.namespace b.namespace key other ha hb
                    ((text_eq_iff _ _).0 same) in
                elim d [ inl n ↦ absurd (n p) | inr n ↦ absurd (n q) ]
            | inr not_same ↦ not_same
          ]
