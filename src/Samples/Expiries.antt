-- ===== src/Samples/Expiries.antt =====
-- A set of two items, of which one has expired.
use pscheduler.Common.{String, refl, keys, AllDistinct, none, some, [], ◌∷◌}
use pscheduler.ExpiringSet.{ExpiringSet}

abbrev two : ExpiringSet String
two = record {
  items =
      ("old", record { item = "a"; expires = 5; cache_time = none })
      ∷ ("new", record { item = "b"; expires = 50; cache_time = some 20 })
      ∷ [];
  next_purge = none;
  destroyed = [];
}

distinct : AllDistinct (keys two.items)
distinct = (refl, (refl, tt))
