-- ===== src/Cache/Pool/Tests.antt =====
-- Runs of the connection manager.
use tortoise_extended.Common.{◌≡◌, refl, true, false, none, some, [], ◌∷◌, codes, ok, raised, arith}
use tortoise_extended.Cache.Pool.{Manager, Driver, driver, init, close}
use tortoise_extended.Cache.Pool.Lifecycle.{IsSound, Installed, init-IsSound}

abbrev silent : Driver
silent = record {
  installed = true;
  from_url = ok tt;
  ping = some (raised (driver (codes "timeout")));
  close = λ _. ok tt;
  stays_open = λ _. false;
}

abbrev answering : Driver
answering = record {
  installed = true;
  from_url = ok tt;
  ping = some (ok tt);
  close = λ _. ok tt;
  stays_open = λ _. false;
}

abbrev connected_once : Manager
connected_once = record { pool = some 0; opened = 0 ∷ []; fresh = 1 }

sound : IsSound connected_once
sound = record { in_use = refl; numbered = (omega arith, tt) }

init-IsSound_example : Installed silent connected_once (init silent connected_once)
init-IsSound_example = init-IsSound silent connected_once sound

replaced_test :
    init answering connected_once ≡ (ok tt, record { pool = some 1; opened = 1 ∷ []; fresh = 2 })
unfolding init
replaced_test = refl

closed_test :
    close answering connected_once ≡ (ok tt, record { pool = none; opened = []; fresh = 1 })
unfolding close
closed_test = refl
