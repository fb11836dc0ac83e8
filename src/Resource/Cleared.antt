-- ===== src/Resource/Cleared.antt =====
-- Which cooldowns a deregistration, and so each registration, of a resource Trigger ends.
use text.Mathlib.TextLemmas.{append_assoc, append-nil}
use kubezap_operator.Base.{
  String, ◌≡◌, refl, sym, ap, ◌∙◌, Bool, true, false, ◌&&◌, none, some, not, ◌||◌, ◌==◌, Bool-cases,
  inl, inr, if◌then◌else◌,
}
use kubezap_operator.Base.Assoc.{lookup}
use kubezap_operator.Base.Text.{◌⧺◌, strip_prefix}
use kubezap_operator.Base.Text.Prefix.{HasNoSlash, strip_prefix-slash}
use kubezap_operator.Resource.{Unstructured, Library, WatchedTrigger, EventType}
use kubezap_operator.Resource.Watchers.{is_some, ResourceWatcher, deregister, register}
use kubezap_operator.Resource.Watchers.Laws.{lookup-clear_prefix}
use kubezap_operator.Resource.Events.{cooldown_key}

prefix_parts : (a b : String) → (a ⧺ "/" ⧺ b) ⧺ "/" ≡ a ⧺ "/" ⧺ b ⧺ "/" ⧺ ""
prefix_parts a b =
    append_assoc a ("/" ⧺ b) "/"
    ∙ ap (λ t. a ⧺ t) (append_assoc "/" b "/" ∙ ap (λ t. "/" ⧺ b ⧺ t) (sym (append-nil "/")))

strip_prefix-nil : (s : String) → strip_prefix "" s ≡ some s
unfolding strip_prefix
strip_prefix-nil s = refl

is_some-if :
    (p q : Bool) (s : String)
    → is_some (if p then (if q then some s else none) else none) ≡ (p && q)
is_some-if true true s = refl
is_some-if true false s = refl
is_some-if false q s = refl

has_prefix :
    (a b c d rest : String)
    → HasNoSlash a
    → HasNoSlash b
    → HasNoSlash c
    → HasNoSlash d
    → is_some (strip_prefix ((a ⧺ "/" ⧺ b) ⧺ "/") (c ⧺ "/" ⧺ d ⧺ "/" ⧺ rest)) ≡ (a == c && b == d)
has_prefix a b c d rest ha hb hc hd =
    ap (λ t. is_some (strip_prefix t (c ⧺ "/" ⧺ d ⧺ "/" ⧺ rest))) (prefix_parts a b)
    ∙ ap is_some (
        strip_prefix-slash a c (b ⧺ "/" ⧺ "") (d ⧺ "/" ⧺ rest) ha hc
        ∙ ap (λ o. if a == c then o else none)
            (strip_prefix-slash b d "" rest hb hd
              ∙ ap (λ o. if b == d then o else none) (strip_prefix-nil rest)))
    ∙ is_some-if (a == c) (b == d) rest

module _ {Content Selector : Type 0} (lib : Library Content Selector)
    (gone other : WatchedTrigger Selector) (u : Unstructured Content) (e : EventType)
    (gone_namespace : HasNoSlash gone.namespace) (gone_name : HasNoSlash gone.name)
    (other_namespace : HasNoSlash other.namespace) (other_name : HasNoSlash other.name) where
  deregister-clears :
      (w : ResourceWatcher)
      → lookup
          (cooldown_key lib other u e)
          (deregister (gone.namespace ⧺ "/" ⧺ gone.name) w).cooldown_tracker
        ≡ (if gone.namespace == other.namespace && gone.name == other.name
            then none
            else lookup (cooldown_key lib other u e) w.cooldown_tracker)
  unfolding deregister cooldown_key
  deregister-clears w =
      lookup-clear_prefix ((gone.namespace ⧺ "/" ⧺ gone.name) ⧺ "/") _ w.cooldown_tracker
      ∙ ap (λ b. if b then none else lookup (cooldown_key lib other u e) w.cooldown_tracker)
          (has_prefix gone.namespace gone.name other.namespace other.name _ gone_namespace gone_name
            other_namespace other_name)

  register-deregister :
      (has_resource : Bool) (w : ResourceWatcher)
      → (register (gone.namespace ⧺ "/" ⧺ gone.name) has_resource w).cooldown_tracker
        ≡ (deregister (gone.namespace ⧺ "/" ⧺ gone.name) w).cooldown_tracker
  unfolding register
  register-deregister has_resource w =
      elim (Bool-cases (not has_resource || not w.has_dynamic_client || not w.is_started)) [
        | inl e ↦ rw e refl
        | inr e ↦ rw e refl
      ]

  -- Where the names and namespaces of Triggers have no "/": once a Trigger is deregistered, and also
  -- once it is registered, again or for the first time, the cooldowns of all its objects and events
  -- are over, and those of any other Trigger are as before.
  pub cooldowns_cleared :
      (has_resource : Bool) (w : ResourceWatcher)
      → (lookup
            (cooldown_key lib other u e)
            (deregister (gone.namespace ⧺ "/" ⧺ gone.name) w).cooldown_tracker
          ≡ (if gone.namespace == other.namespace && gone.name == other.name
              then none
              else lookup (cooldown_key lib other u e) w.cooldown_tracker))
        × (lookup
              (cooldown_key lib other u e)
              (register (gone.namespace ⧺ "/" ⧺ gone.name) has_resource w).cooldown_tracker
            ≡ (if gone.namespace == other.namespace && gone.name == other.name
                then none
                else lookup (cooldown_key lib other u e) w.cooldown_tracker))
  cooldowns_cleared has_resource w = (
    deregister-clears w,
    ap (lookup (cooldown_key lib other u e)) (register-deregister has_resource w)
        ∙ deregister-clears w,
  )
