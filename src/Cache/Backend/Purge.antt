-- ===== src/Cache/Backend/Purge.antt =====
-- `delete_pattern` of cache/redis.py.
use tortoise_extended.Common.{
  ℕ, suc, ◌+◌, ◌≡◌, refl, ap, ◌∙◌, Option, none, some, List, [], ◌∷◌, Text, text_eq, length, any,
  if◌then◌else◌, Outcome, ok, raised, arith,
}
use tortoise_extended.Common.Actions.{except}
use tortoise_extended.Cache.Backend.{
  Exception, Serializer, Redis, Backend, full_key, delete_pattern, delete_each, delete_found,
  raise_redis,
}
use tortoise_extended.Cache.Backend.Laws.{Online}

-- How the iteration ends: with the count, or with an exception.
abbrev ending : Option Exception → ℕ → Outcome Exception ℕ
ending none n = ok n
ending (some e) n = raised (raise_redis e)

module _ (sz : Serializer) (redis : Redis sz.Bytes) (self : Backend)
    (up : Online sz.Bytes redis) where
  open redis use {Store}

  abbrev IsPurged : List Text → Store → Store → Type 0
  IsPurged found s s' =
      (k : Text) → up.value s' k ≡ (if any (λ j. text_eq j k) found then none else up.value s k)

  delete_each_lem :
      (count : ℕ) (end : Option Exception) (found : List Text) (s : Store)
      → (s' : Store) × (except raise_redis (delete_each sz redis self count end found) s
          ≡ (ending end (length found + count), s'))
        × IsPurged found s s'
  unfolding delete_each
  delete_each_lem count none [] s = (s, ap (λ n. (ok n, s)) (omega arith), λ k. refl)
  delete_each_lem count (some e) [] s = (s, refl, λ k. refl)
  delete_each_lem count end (key ∷ found) s =
      let (s', done, gone) = delete_each_lem (suc count) end found (up.deleted key s) in
      (
        s',
        rw (up.delete_lem key s) (done ∙ ap (λ n. (ending end n, s')) (omega arith)),
        λ k. gone k ∙ ground (arith, up.value-deleted key k s),
      )

  -- While the driver is online, `delete_pattern` removes the keys that the iteration yields and no
  -- other, and returns how many were yielded, or the driver's exception, translated, if the iteration
  -- ends early.
  pub delete_pattern_lem :
      (pattern : Text) (found : List Text) (end : Option Exception) (s : Store)
      → redis.scan_iter (full_key self.namespace pattern) s ≡ (found, end)
      → (s' : Store) × (delete_pattern sz redis self pattern s ≡ (ending end (length found), s'))
        × IsPurged found s s'
  unfolding delete_pattern delete_found
  delete_pattern_lem pattern found end s scanned =
      let (s', done, gone) = delete_each_lem 0 end found s in
      (s', rw scanned (done ∙ ap (λ n. (ending end n, s')) (omega arith)), gone)
