-- ===== src/Gateway/SecretIndex/Laws.antt =====
-- The index answers with exactly the objects whose last update names the Secret.
use kubezap_operator.Base.{◌≡◌, refl, ◌∙◌, ◌&&◌, ◌||◌, not, List, [], ◌∷◌, arith, if◌then◌else◌}
use kubezap_operator.Base.Keys.{
  NamespacedName, KeyMap, at, put, drop_key, has, add, remove, same, same_iff, at-put, at-drop_key,
  has-add, has-remove, has-empty,
}
use kubezap_operator.Gateway.SecretIndex.{
  Index, new_index, set_at, take_out, take_out_all, put_in_all, new_set, update, objects_for,
}

module _ (o s : NamespacedName) where
  has-take_out :
      (object secret : NamespacedName) (m : KeyMap (List NamespacedName))
      → has o (set_at s (take_out object secret m))
        ≡ (not (same secret s && same object o) && has o (set_at s m))
  unfolding take_out has
  has-take_out object secret m = ground (
    arith,
    at-drop_key s secret m,
    at-put s secret (remove object (set_at secret m)) m,
    same_iff secret s,
    has-remove o object (set_at secret m),
    has-empty o (remove object (set_at secret m)),
  )

  has-take_out_all :
      (object : NamespacedName) (secrets : List NamespacedName) (m : KeyMap (List NamespacedName))
      → has o (set_at s (take_out_all object secrets m))
        ≡ (not (has s secrets && same object o) && has o (set_at s m))
  unfolding take_out_all has
  has-take_out_all object [] m = ground arith
  has-take_out_all object (secret ∷ rest) m =
      has-take_out_all object rest (take_out object secret m)
      ∙ ground (arith, has-take_out object secret m)

  has-put_in_all :
      (object : NamespacedName) (secrets : List NamespacedName) (m : KeyMap (List NamespacedName))
      → has o (set_at s (put_in_all object secrets m))
        ≡ ((has s secrets && same object o) || has o (set_at s m))
  unfolding put_in_all has
  has-put_in_all object [] m = ground arith
  has-put_in_all object (secret ∷ rest) m =
      has-put_in_all object rest (put secret (add object (set_at secret m)) m)
      ∙ ground (
        arith,
        at-put s secret (add object (set_at secret m)) m,
        has-add o object (set_at secret m),
        same_iff secret s,
      )

has-new_set :
    (s : NamespacedName) (set secrets : List NamespacedName)
    → has s (new_set set secrets) ≡ (has s secrets || has s set)
unfolding new_set has
has-new_set s set [] = refl
has-new_set s set (secret ∷ rest) =
    has-new_set s (add secret set) rest ∙ ground (arith, has-add s secret set)

-- Each of the two maps is the other one turned round.
pub IsMirror : Index → Type 0
IsMirror idx =
    (o s : NamespacedName) → has o (set_at s idx.by_secret) ≡ has s (set_at o idx.by_object)

pub new_index-IsMirror : IsMirror new_index
unfolding IsMirror at has
new_index-IsMirror o s = refl

module _ (idx : Index) (object : NamespacedName) (secrets : List NamespacedName)
    (h : IsMirror idx) where
  -- After an update the index answers for a Secret with the object if it is among the new Secrets,
  -- and with any other object if it did before.
  pub objects_for-update :
      (o s : NamespacedName)
      → has o (objects_for s (update object secrets idx))
        ≡ (if same object o then has s secrets else has o (objects_for s idx))
  unfolding IsMirror update objects_for
  objects_for-update o s = ground (
    arith,
    has-take_out_all o s object (set_at object idx.by_object) idx.by_secret,
    has-put_in_all o s object secrets
        (take_out_all object (set_at object idx.by_object) idx.by_secret),
    same_iff object o,
    has-empty s secrets,
    h object s,
  )

  secrets_of-update :
      (o s : NamespacedName)
      → has s (set_at o (update object secrets idx).by_object)
        ≡ (if same object o then has s secrets else has s (set_at o idx.by_object))
  unfolding update has
  secrets_of-update o s = ground (
    arith,
    at-drop_key o object idx.by_object,
    at-put o object (new_set [] secrets) (drop_key object idx.by_object),
    has-new_set s [] secrets,
    has-empty s secrets,
  )

  pub update-IsMirror : IsMirror (update object secrets idx)
  unfolding IsMirror
  update-IsMirror o s =
      unfold objects_for in objects_for-update o s ∙ ground (arith, h o s, secrets_of-update o s)
