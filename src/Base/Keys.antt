-- ===== src/Base/Keys.antt =====
-- types.NamespacedName, and Go's maps and sets with such keys. Where the code ranges over one, it
-- does so in the list's order.
use kubezap_operator.Base.{
  String, ◌≡◌, ◌↔◌, refl, Bool, true, false, ◌&&◌, ◌||◌, not, Option, none, some, List, [], ◌∷◌,
  arith, ◌==◌, eq_iff, if◌then◌else◌, is_empty, Bool-cases, inl, inr,
}

pub record NamespacedName : Type 0 where
  pub namespace : String
  pub name : String

unfoldable pub same : NamespacedName → NamespacedName → Bool
same a b = a.name == b.name && a.namespace == b.namespace

pub same_iff : (a b : NamespacedName) → (same a b ≡ true) ↔ (a ≡ b)
unfolding same
same_iff a b = (
  (λ h. ground (arith, eq_iff a.name b.name, eq_iff a.namespace b.namespace)),
  (λ h. ground (arith, eq_iff a.name b.name, eq_iff a.namespace b.namespace)),
)

pub same_refl : (a : NamespacedName) → same a a ≡ true
same_refl a = (same_iff a a).1 refl

abbrev pub KeyMap {ℓ} : Type ℓ → Type ℓ
KeyMap V = List (NamespacedName × V)

module _ {ℓ} {V : Type ℓ} where
  -- v, ok := m[key]
  unfoldable pub at : NamespacedName → KeyMap V → Option V
  at key [] = none
  at key ((k, value) ∷ rest) = if same k key then some value else at key rest

  -- m[key] = value
  unfoldable pub put : NamespacedName → V → KeyMap V → KeyMap V
  put key value [] = (key, value) ∷ []
  put key value ((k, old) ∷ rest) =
      let replaced = (key, value) ∷ rest in
      let below = (k, old) ∷ put key value rest in if same k key then replaced else below

  -- delete(m, key)
  unfoldable pub drop_key : NamespacedName → KeyMap V → KeyMap V
  drop_key key [] = []
  drop_key key ((k, value) ∷ rest) =
      let without = drop_key key rest in
      let kept = (k, value) ∷ without in if same k key then without else kept

  pub at-put :
      (read written : NamespacedName) (value : V) (m : KeyMap V)
      → at read (put written value m) ≡ (if same written read then some value else at read m)
  unfolding at put
  at-put read written value [] = refl
  at-put read written value ((k, old) ∷ rest) = ground (
    arith,
    same_iff k written,
    same_iff k read,
    same_iff written read,
    at-put read written value rest,
  )

  pub at-drop_key :
      (read removed : NamespacedName) (m : KeyMap V)
      → at read (drop_key removed m) ≡ (if same removed read then none else at read m)
  unfolding at drop_key
  at-drop_key read removed [] = ground arith
  at-drop_key read removed ((k, old) ∷ rest) = ground (
    arith,
    same_iff k removed,
    same_iff k read,
    same_iff removed read,
    at-drop_key read removed rest,
  )

-- `_, ok := set[key]`
unfoldable pub has : NamespacedName → List NamespacedName → Bool
has key [] = false
has key (k ∷ rest) = same k key || has key rest

-- set[key] = struct{}{}
unfoldable pub add : NamespacedName → List NamespacedName → List NamespacedName
unfolding has
add key set = if has key set then set else key ∷ set

-- delete(set, key)
unfoldable pub remove : NamespacedName → List NamespacedName → List NamespacedName
remove key [] = []
remove key (k ∷ rest) =
    let without = remove key rest in let kept = k ∷ without in if same k key then without else kept

pub has-add :
    (key added : NamespacedName) (set : List NamespacedName)
    → has key (add added set) ≡ (same added key || has key set)
unfolding has add
has-add key added set = elim (Bool-cases (same added key)) [
  | inl e ↦ ground (arith, same_iff added key)
  | inr e ↦ ground arith
]

pub has-remove :
    (key removed : NamespacedName) (set : List NamespacedName)
    → has key (remove removed set) ≡ (not (same removed key) && has key set)
unfolding has remove
has-remove key removed [] = ground arith
has-remove key removed (k ∷ rest) =
    ground
      (arith, same_iff k removed, same_iff k key, same_iff removed key, has-remove key removed rest)

pub has-empty :
    (key : NamespacedName) (set : List NamespacedName) → is_empty set ≡ true → has key set ≡ false
unfolding has
has-empty key [] h = refl
has-empty key (k ∷ rest) h = cc
