-- ===== src/Base/Assoc.antt =====
-- Go maps with string keys, as association lists with one entry for a key. Where the code ranges
-- over a map, it does so in the list's order.
use kubezap_operator.Base.{
  String, ◌≡◌, refl, Option, none, some, List, [], ◌∷◌, arith, ◌==◌, eq_iff, if◌then◌else◌,
}

abbrev pub Assoc {ℓ} : Type ℓ → Type ℓ
Assoc V = List (String × V)

module _ {ℓ} {V : Type ℓ} where
  -- v, ok := m[key]
  unfoldable pub lookup : String → Assoc V → Option V
  lookup key [] = none
  lookup key ((name, value) ∷ rest) = if name == key then some value else lookup key rest

  -- m[key] = value
  unfoldable pub insert : String → V → Assoc V → Assoc V
  insert key value [] = (key, value) ∷ []
  insert key value ((name, old) ∷ rest) =
      let replaced = (key, value) ∷ rest in
      let below = (name, old) ∷ insert key value rest in if name == key then replaced else below

  -- delete(m, key)
  unfoldable pub delete : String → Assoc V → Assoc V
  delete key [] = []
  delete key ((name, value) ∷ rest) =
      let without = delete key rest in
      let kept = (name, value) ∷ without in if name == key then without else kept

  pub lookup-insert :
      (read written : String) (value : V) (entries : Assoc V)
      → lookup read (insert written value entries)
        ≡ (if written == read then some value else lookup read entries)
  unfolding lookup insert
  lookup-insert read written value [] = refl
  lookup-insert read written value ((name, old) ∷ rest) = ground (
    arith,
    eq_iff name written,
    eq_iff name read,
    eq_iff written read,
    lookup-insert read written value rest,
  )

  pub lookup-delete :
      (read removed : String) (entries : Assoc V)
      → lookup read (delete removed entries)
        ≡ (if removed == read then none else lookup read entries)
  unfolding lookup delete
  lookup-delete read removed [] = ground arith
  lookup-delete read removed ((name, old) ∷ rest) = ground (
    arith,
    eq_iff name removed,
    eq_iff name read,
    eq_iff removed read,
    lookup-delete read removed rest,
  )
