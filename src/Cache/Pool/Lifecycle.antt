-- ===== src/Cache/Pool/Lifecycle.antt =====
-- How `init` of the connection manager of cache/redis.py (under src/tortoise_extended) ends.
use tortoise_extended.Common.{
  ℕ, suc, ◌<◌, ◌≡◌, refl, sym, subst, ◌⊎◌, inl, inr, Bool, true, false, not, Option, none, some,
  List, [], ◌∷◌, ◌==◌, ==_refl, keep, any, All, Outcome, ok, raised, Bool-cases, arith,
}
use tortoise_extended.Common.Actions.{and_then, continue}
use tortoise_extended.Cache.Pool.{
  PoolError, Manager, Driver, init, shut, closed, close_result, connect_result, verified, shut_old,
  install,
}

abbrev is_open : ℕ → List ℕ → Bool
is_open p opened = any (λ q. q == p) opened

abbrev InUse : Option ℕ → List ℕ → Type 0
InUse none opened = Unit
InUse (some p) opened = is_open p opened ≡ true

-- The installed pool is open, and every open pool has been numbered.
pub record IsSound (m : Manager) : Type 0 where
  pub in_use : InUse m.pool m.opened
  pub numbered : All (λ q. q < m.fresh) m.opened

any-keep :
    (p q : ℕ) (ps : List ℕ)
    → (p == q) ≡ false
    → is_open p ps ≡ true
    → is_open p (keep (λ r. not (r == q)) ps) ≡ true
any-keep p q [] other h = h
any-keep p q (r ∷ ps) other h = elim (Bool-cases (r == q)) [
  | inl gone ↦ rw gone (any-keep p q ps other (ground arith))
  | inr kept ↦ rw kept (elim (Bool-cases (r == p)) [
    | inl at ↦ ground arith
    | inr off ↦ ground (arith, any-keep p q ps other (ground arith))
  ])
]

numbered-keep :
    (n : ℕ) (f : ℕ → Bool) (ps : List ℕ) → All (λ q. q < n) ps → All (λ q. q < n) (keep f ps)
numbered-keep n f [] h = tt
numbered-keep n f (p ∷ ps) h = elim (Bool-cases (f p)) [
  | inl kept ↦ rw kept (h.0, numbered-keep n f ps h.1)
  | inr gone ↦ rw gone (numbered-keep n f ps h.1)
]

numbered-suc : (n : ℕ) (ps : List ℕ) → All (λ q. q < n) ps → All (λ q. q < suc n) ps
numbered-suc n [] h = tt
numbered-suc n (p ∷ ps) h = (omega (arith, h.0), numbered-suc n ps h.1)

-- An open pool has a number below the next one.
open_number : (n p : ℕ) (ps : List ℕ) → All (λ q. q < n) ps → is_open p ps ≡ true → p < n
open_number n p [] h e = absurd (ground arith)
open_number n p (q ∷ ps) h e = elim (Bool-cases (q == p)) [
  | inl same ↦ ground (arith, h.0)
  | inr other ↦ open_number n p ps h.1 (ground arith)
]

gone-keep : (p : ℕ) (ps : List ℕ) → is_open p (keep (λ q. not (q == p)) ps) ≡ false
gone-keep p [] = refl
gone-keep p (q ∷ ps) = elim (Bool-cases (q == p)) [
  | inl same ↦ rw same (gone-keep p ps)
  | inr other ↦ rw (other, other) (gone-keep p ps)
]

abbrev pub Released : Option ℕ → List ℕ → Type 0
Released none opened = Unit
Released (some p) opened = is_open p opened ≡ false

-- How `init` ends in `m'`, begun in `m`: it installs the next pool, open, and the one before is open
-- no more; or it raises, and the pool before stays installed, open if it is not its own close that
-- raised. Every open pool is numbered either way.
abbrev pub Installed : Driver → Manager → Outcome PoolError (Unit {0}) × Manager → Type 0
Installed drv m (o, m') =
    All (λ q. q < m'.fresh) m'.opened
    × (((o ≡ ok tt)
          × (m'.pool ≡ some m.fresh)
          × (is_open m.fresh m'.opened ≡ true)
          × Released m.pool m'.opened)
        ⊎ ((e : PoolError) × (o ≡ raised e)
            × (m'.pool ≡ m.pool)
            × (InUse m'.pool m'.opened ⊎ ((q : ℕ) × (m.pool ≡ some q) × (drv.close q ≡ raised e)))))

abbrev connected : Manager → Manager
connected m = record m { opened = m.fresh ∷ m.opened; fresh = suc m.fresh }

connected-IsSound : (m : Manager) → IsSound m → IsSound (connected m)
connected-IsSound m sound = record {
  in_use = kept m.pool sound.in_use;
  numbered = (omega arith, numbered-suc m.fresh m.opened sound.numbered);
}
  where
    kept : (o : Option ℕ) → InUse o m.opened → InUse o (m.fresh ∷ m.opened)
    kept none h = tt
    kept (some p) h = ground (arith, h)

-- Closing a pool that is not installed.
shut-IsSound :
    (m : Manager) (p : ℕ)
    → IsSound m
    → ((q : ℕ) → m.pool ≡ some q → (q == p) ≡ false)
    → IsSound (record m { opened = keep (λ q. not (q == p)) m.opened })
shut-IsSound m p sound other = record {
  in_use = kept m.pool refl sound.in_use;
  numbered = numbered-keep m.fresh _ m.opened sound.numbered;
}
  where
    kept :
        (o : Option ℕ) → m.pool ≡ o → InUse o m.opened → InUse o (keep (λ q. not (q == p)) m.opened)
    kept none e h = tt
    kept (some q) e h = any-keep q p m.opened (other q e) h

module _ (m : Manager) (sound : IsSound m) where
  abbrev m1 : Manager
  m1 = connected m

  older : (q : ℕ) → m.pool ≡ some q → q < m.fresh
  older q e = at m.pool e sound.in_use
    where
      at : (o : Option ℕ) → o ≡ some q → InUse o m.opened → q < m.fresh
      at none e h = absurd (ground arith)
      at (some p) e h = ground (arith, open_number m.fresh p m.opened sound.numbered h)

  -- It raises, and the pool before is still in use.
  still :
      (drv : Driver) (e : PoolError) (m' : Manager)
      → IsSound m'
      → m'.pool ≡ m.pool
      → Installed drv m (raised e, m')
  still drv e m' kept same = (kept.numbered, inr (e, refl, same, inl kept.in_use))

  closed-IsSound : IsSound (closed m.fresh m1)
  closed-IsSound =
      shut-IsSound m1 m.fresh (connected-IsSound m sound) (λ q at. ground (arith, older q at))

  -- A new pool that does not answer is closed, or not, and the old one stays.
  refused :
      (drv : Driver) (e : PoolError) (stays : Bool) (o : Outcome PoolError (Unit {0}))
      (next : Unit {0} → Manager → Outcome PoolError (Unit {0}) × Manager)
      → Installed drv m
          (continue (continue (close_result m.fresh stays o m1) (λ _ m. (raised e, m))) next)
  unfolding close_result
  refused drv e stays (ok _) next = still drv e (closed m.fresh m1) closed-IsSound refl
  refused drv e true (raised e') next = still drv e' m1 (connected-IsSound m sound) refl
  refused drv e false (raised e') next = still drv e' (closed m.fresh m1) closed-IsSound refl

  -- The new pool answers, and the old one is closed first.
  accepted :
      (drv : Driver) (o : Option ℕ)
      → m.pool ≡ o
      → Installed drv m (and_then (shut_old drv o) (λ _. install m.fresh) m1)
  unfolding shut_old shut install close_result
  accepted drv none e = (
    (connected-IsSound m sound).numbered,
    inl (
      refl,
      refl,
      ground (arith, ==_refl m.fresh),
      subst (λ o. Released o (m.fresh ∷ m.opened)) (sym e) tt,
    ),
  )
  accepted drv (some q) e = closing (drv.stays_open q) (drv.close q) refl
    where
      differ : (m.fresh == q) ≡ false
      differ = ground (arith, older q e)

      rest : All (λ r. r < suc m.fresh) (closed q m1).opened
      rest =
          numbered-keep (suc m.fresh) (λ r. not (r == q)) (m.fresh ∷ m.opened)
            (connected-IsSound m sound).numbered

      closing :
          (stays : Bool) (o : Outcome PoolError (Unit {0}))
          → drv.close q ≡ o
          → Installed drv m (continue (close_result q stays o m1) (λ _. install m.fresh))
      closing true (raised e') h =
          ((connected-IsSound m sound).numbered, inr (e', refl, refl, inr (q, e, h)))
      closing false (raised e') h = (rest, inr (e', refl, refl, inr (q, e, h)))
      closing stays (ok _) h = (
        rest,
        inl (
          refl,
          refl,
          any-keep m.fresh q (m.fresh ∷ m.opened) differ (ground (arith, ==_refl m.fresh)),
          subst (λ o. Released o (keep (λ r. not (r == q)) (m.fresh ∷ m.opened))) (sym e)
              (gone-keep q (m.fresh ∷ m.opened)),
        ),
      )

-- `init` either installs a new pool, which is open, and the one before is open no more, or it raises
-- and leaves the one before installed, which is still open unless the exception is that of closing
-- it. Every open pool stays numbered.
pub init-IsSound : (drv : Driver) (m : Manager) → IsSound m → Installed drv m (init drv m)
unfolding init connect_result verified shut
init-IsSound drv m sound = elim (Bool-cases drv.installed) [
  | inr missing ↦ rw missing (still m sound drv _ m sound refl)
  | inl there ↦ rw there (connecting drv.from_url)
]
  where
    pinged :
        (o : Option (Outcome PoolError (Unit {0})))
        → Installed drv m (
            and_then
              (verified drv m.fresh o)
              (λ _ k. and_then (shut_old drv k.pool) (λ _. install m.fresh) k)
              (connected m))
    pinged none = still m sound drv _ (connected m) (connected-IsSound m sound) refl
    pinged (some (ok _)) = accepted m sound drv m.pool refl
    pinged (some (raised e)) = refused m sound drv e (drv.stays_open m.fresh) (drv.close m.fresh) _

    connecting :
        (o : Outcome PoolError (Unit {0}))
        → Installed drv m (
            and_then
              (connect_result o)
              (λ p.
                and_then
                  (verified drv p drv.ping)
                  (λ _ k. and_then (shut_old drv k.pool) (λ _. install p) k))
              m)
    connecting (raised e) = still m sound drv e m sound refl
    connecting (ok _) = pinged drv.ping
