-- ===== src/PsUrl/ContentTypes.antt =====
-- What content type a post has, by the posts before it.
use pscheduler.Common.{String, ◌≡◌, Bool, Option, some, [], ◌∷◌, arith, eq_iff, lookup}
use pscheduler.Json.{Json}
use pscheduler.World.{World}
use pscheduler.PsUrl.{Dict, put, Transport, Defaults, default, url_post}

lookup-put : (k v : String) (d : Dict) → lookup k (put k v d) ≡ some v
unfolding put
lookup-put k v [] = ground (arith, eq_iff k k)
lookup-put k v ((j, x) ∷ d) = ground (arith, lookup-put k v d)

-- The default headers after a post with them.
abbrev pub after_post :
    World
    → Transport
    → Defaults
    → String
    → Json
    → Option String
    → Json
    → (json throw : Bool) → Defaults
after_post w t d url params content_type body json throw =
    (url_post w t d url params content_type default body json throw).0
