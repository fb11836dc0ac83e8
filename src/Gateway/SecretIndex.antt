-- ===== src/Gateway/SecretIndex.antt =====
-- internal/gateway/secretindex/secretindex.go: Index, the reverse index from a Secret (or an
-- Integration) to the Triggers that depend on it. The mutex makes each call one step.
pub mod Laws
use kubezap_operator.Base.{Bool, Option, none, some, List, [], ◌∷◌, is_empty, if◌then◌else◌}
use kubezap_operator.Base.Keys.{NamespacedName, KeyMap, at, put, drop_key, has, add, remove}

pub record Index : Type 0 where
  pub by_secret : KeyMap (List NamespacedName)
  pub by_object : KeyMap (List NamespacedName)

abbrev pub new_index : Index
new_index = record { by_secret = []; by_object = [] }

-- A set read from a map of sets: that of a missing key is nil.
abbrev pub set_or_nil : Option (List NamespacedName) → List NamespacedName
set_or_nil none = []
set_or_nil (some set) = set

abbrev pub set_at : NamespacedName → KeyMap (List NamespacedName) → List NamespacedName
set_at key m = set_or_nil (at key m)

-- One round of the loop that takes `object` out of the sets of its old Secrets.
unfoldable pub take_out :
    NamespacedName → NamespacedName → KeyMap (List NamespacedName) → KeyMap (List NamespacedName)
take_out object secret m =
    let left = remove object (set_at secret m) in
    if is_empty left then drop_key secret m else put secret left m

unfoldable pub take_out_all :
    NamespacedName
    → List NamespacedName
    → KeyMap (List NamespacedName)
    → KeyMap (List NamespacedName)
unfolding take_out
take_out_all object [] m = m
take_out_all object (secret ∷ rest) m = take_out_all object rest (take_out object secret m)

-- The loop that puts `object` into the sets of its new Secrets.
unfoldable pub put_in_all :
    NamespacedName
    → List NamespacedName
    → KeyMap (List NamespacedName)
    → KeyMap (List NamespacedName)
put_in_all object [] m = m
put_in_all object (secret ∷ rest) m =
    put_in_all object rest (put secret (add object (set_at secret m)) m)

-- The set of the keys of a slice.
unfoldable pub new_set : List NamespacedName → List NamespacedName → List NamespacedName
new_set set [] = set
new_set set (secret ∷ rest) = new_set (add secret set) rest

unfoldable pub update : NamespacedName → List NamespacedName → Index → Index
unfolding take_out_all put_in_all new_set
update object secrets idx =
    let cleared = take_out_all object (set_at object idx.by_object) idx.by_secret in
    let without = drop_key object idx.by_object in
    if is_empty secrets then record { by_secret = cleared; by_object = without } else record {
      by_secret = put_in_all object secrets cleared;
      by_object = put object (new_set [] secrets) without;
    }

unfoldable pub remove_object : NamespacedName → Index → Index
unfolding update
remove_object object idx = update object [] idx

unfoldable pub objects_for : NamespacedName → Index → List NamespacedName
objects_for secret idx = set_at secret idx.by_secret
