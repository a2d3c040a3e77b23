-- ===== src/Caches.antt =====
-- The in-memory caches of the smart-account routes, read off the log of what was set.
use latch_playground.Common.{
  Bool, true, false, ◌&&◌, ◌≡◌, refl, Option, none, some, List, [], ◌∷◌, if◌then◌else◌,
}
use latch_playground.Text.{Text, text_eq, text_eq_refl}
use latch_playground.Effects.{done, Route, give}
use latch_playground.Server.{
  Event, CacheName, webauthn_cache, freighter_cache, factory_cache, deploy_cache, cache_set,
  account_cache_set,
}

abbrev pub same_cache : CacheName → CacheName → Bool
same_cache webauthn_cache webauthn_cache = true
same_cache freighter_cache freighter_cache = true
same_cache factory_cache factory_cache = true
same_cache deploy_cache deploy_cache = true
same_cache _ _ = false

-- A cache after a log.
unfoldable pub cached : CacheName → List Event → Text → Option Text
cached name [] key = none
cached name (cache_set n k address ∷ log) key =
    let rest = cached name log key in
    if same_cache n name && text_eq k key then some address else rest
cached name (_ ∷ log) key = cached name log key

-- The same for a cache that holds the classic address beside the account's.
unfoldable pub account_cached : CacheName → List Event → Text → Option (Text × Text)
account_cached name [] key = none
account_cached name (account_cache_set n k address g_address ∷ log) key =
    let rest = account_cached name log key in
    if same_cache n name && text_eq k key then some (address, g_address) else rest
account_cached name (_ ∷ log) key = account_cached name log key

abbrev pub read_cache : {R : Type 0} → CacheName → Text → Route Event R (Option Text)
read_cache name key log = (done (cached name log key), log)

abbrev pub set_cache : {R : Type 0} → CacheName → Text → Text → Route Event R Unit
set_cache name key address log = (done tt, cache_set name key address ∷ log)

abbrev pub read_account_cache :
    {R : Type 0} → CacheName → Text → Route Event R (Option (Text × Text))
read_account_cache name key log = (done (account_cached name log key), log)

abbrev pub set_account_cache :
    {R : Type 0} → CacheName → (key address g_address : Text) → Route Event R Unit
set_account_cache name key address g_address log =
    (done tt, account_cache_set name key address g_address ∷ log)

abbrev pub or_cached : {R A : Type 0} → (A → R) → Option A → Route Event R R → Route Event R R
or_cached answer (some a) rest = give (answer a)
or_cached answer none rest = rest

same_cache_refl : (name : CacheName) → same_cache name name ≡ true
same_cache_refl webauthn_cache = refl
same_cache_refl freighter_cache = refl
same_cache_refl factory_cache = refl
same_cache_refl deploy_cache = refl

pub cached_set :
    (name : CacheName) (key address : Text) (log : List Event)
    → cached name (cache_set name key address ∷ log) key ≡ some address
unfolding cached
cached_set name key address log = rw (same_cache_refl name, text_eq_refl key) refl

pub account_cached_set :
    (name : CacheName) (key address g_address : Text) (log : List Event)
    → account_cached name (account_cache_set name key address g_address ∷ log) key
      ≡ some (address, g_address)
unfolding account_cached
account_cached_set name key address g_address log = rw (same_cache_refl name, text_eq_refl key) refl
