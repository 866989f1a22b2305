-- ===== src/LimitSet/Build.antt =====
-- What the constructor of `LimitSet` accepts.
use pscheduler.Common.{
  String, ◌≡◌, refl, true, false, not, List, [], ◌∷◌, ◌++◌, ok, err, arith, guard, or_raise,
  has_key, keys, AllDistinct, AllDistinct-snoc, contains-keys, ◌∙◌, >>=-eq-ok,
}
use pscheduler.Json.{Json, str, get_item, as_text}
use pscheduler.World.{World}
use pscheduler.Limit
use pscheduler.LimitSet.{
  LimitSet, LimitEntry, resolve, add, add_all, duplicate, unsupported, construct,
}

-- A round of the loop that succeeds adds one limit, under a name that was not there.
pub add_inv :
    (w : World) (limits more : LimitSet) (limit : Json)
    → add w limits limit ≡ ok more
    → (name : String) × (l : LimitEntry) × (more ≡ limits ++ (name, l) ∷ [])
      × (has_key name limits ≡ false)
unfolding add
add_inv w limits more limit h =
    let (n, e1, h1) = >>=-eq-ok (get_item limit "name") _ h in
    let (name, e2, h2) = >>=-eq-ok (as_text n) _ h1 in
    let (u, e3, h3) = >>=-eq-ok (guard (not (has_key name limits)) (duplicate name)) _ h2 in
    let (spec, e4, h4) = >>=-eq-ok (resolve limits name limit) _ h3 in
    let (creation, e5, h5) =
      >>=-eq-ok (or_raise (Limit.create w spec.type spec.config) (unsupported name spec.type)) _
        h4 in
    let (evaluator, e6, h6) = >>=-eq-ok creation _ h5 in
    (
      name,
      record {
        name = name;
        type = spec.type;
        config = spec.config;
        invert = spec.invert;
        evaluator = evaluator;
      },
      ground arith,
      ground arith,
    )

keys-snoc :
    (limits : LimitSet) (name : String) (l : LimitEntry)
    → keys (limits ++ (name, l) ∷ []) ≡ keys limits ++ name ∷ []
keys-snoc [] name l = refl
keys-snoc ((n, m) ∷ limits) name l = rw (keys-snoc limits name l)

add-AllDistinct :
    (w : World) (limits more : LimitSet) (limit : Json)
    → add w limits limit ≡ ok more
    → AllDistinct (keys limits)
    → AllDistinct (keys more)
add-AllDistinct w limits more limit h d =
    let (name, l, e, absent) = add_inv w limits more limit h in
    rw (e, keys-snoc limits name l)
      (AllDistinct-snoc (keys limits) name d (contains-keys name limits ∙ absent))

add_all-AllDistinct :
    (w : World) (limits more : LimitSet) (fodder : List Json)
    → add_all w limits fodder ≡ ok more
    → AllDistinct (keys limits)
    → AllDistinct (keys more)
unfolding add_all
add_all-AllDistinct w limits more [] h d = let same : limits ≡ more = cc in rw (← same) d
add_all-AllDistinct w limits more (limit ∷ fodder) h d =
    let (next, e, h') = >>=-eq-ok (add w limits limit) (λ m. add_all w m fodder) h in
    add_all-AllDistinct w next more fodder h' (add-AllDistinct w limits next limit e d)

-- A set that the constructor accepts has no name twice.
pub construct-AllDistinct :
    (w : World) (fodder : List Json) (limits : LimitSet)
    → construct w fodder ≡ ok limits
    → AllDistinct (keys limits)
unfolding construct
construct-AllDistinct w fodder limits h = add_all-AllDistinct w [] limits fodder h tt

-- A limit whose name is in the set already is refused with the exception that names it.
pub add-duplicate :
    (w : World) (limits : LimitSet) (limit : Json) (name : String)
    → get_item limit "name" ≡ ok (str name)
    → has_key name limits ≡ true
    → add w limits limit ≡ err (duplicate name)
unfolding add as_text
add-duplicate w limits limit name e h = rw (e, h)
