-- ===== src/Webhook/Watcher/Routes.antt =====
-- What the handlers do to the routes.
use kubezap_operator.Base.{
  String, ◌≡◌, ◌≢◌, refl, ◌∙◌, Bool, true, false, Option, none, some, arith, ◌&&◌, eq_iff,
  Bool-cases, Option-cases, ◌==◌, if◌then◌else◌, eq_refl, String-cases, inl, inr,
}
use kubezap_operator.Base.Assoc.{lookup-insert, lookup-delete}
use kubezap_operator.Api.Trigger.{Trigger}
use kubezap_operator.Api.WebhookTrigger.{WebhookTrigger}
use kubezap_operator.Webhook.Watcher.Build.{build_route_entry}
use kubezap_operator.Webhook.Route.{
  RouteEntry, RouteRegistry, register, deregister, lookup_route, normalize_path,
}
use kubezap_operator.Webhook.Watcher.{Answers, TriggerWatcher, entry_route_path}
use kubezap_operator.Webhook.Watcher.Handle.{
  Wanted, no_route, unbuilt, built, wanted, of_webhook, of_build, route, handle_trigger,
  handle_delete,
}

-- The route of a path as the gateway reads it.
abbrev pub slot : Trigger → String
slot trigger = normalize_path (entry_route_path trigger)

module _ (answers : Answers) where
  -- The route that a path has after its Trigger was handled, where it had `old`.
  abbrev pub routed : Wanted → Option RouteEntry → Option RouteEntry
  routed no_route old = none
  routed unbuilt old = old
  routed (built entry) old =
      some (record entry { allowed_method = answers.to_upper entry.allowed_method })

  same_either : (b : Bool) (o : Option RouteEntry) → o ≡ (if b then o else o)
  same_either true o = refl
  same_either false o = refl

  lookup-route :
      (path asked : String) (v : Wanted) (registry : RouteRegistry)
      → lookup_route asked (route answers path v registry) ≡ (
          if normalize_path path == normalize_path asked
          then routed v (lookup_route asked registry)
          else lookup_route asked registry)
  unfolding lookup_route route register deregister
  lookup-route path asked no_route registry =
      lookup-delete (normalize_path asked) (normalize_path path) registry.routes
  lookup-route path asked unbuilt registry =
      same_either (normalize_path path == normalize_path asked) (lookup_route asked registry)
  lookup-route path asked (built entry) registry =
      lookup-insert (normalize_path asked) (normalize_path path)
        (record entry { allowed_method = answers.to_upper entry.allowed_method }) registry.routes

  -- A Trigger of type webhook that is enabled, with its spec.webhook.
  pub record IsActive (trigger : Trigger) (webhook : WebhookTrigger) : Type 0 where
    pub has_type : trigger.type ≡ "webhook"
    pub is_enabled : trigger.enabled ≡ true
    pub has_webhook : trigger.webhook ≡ some webhook

  inactive_wanted :
      (trigger : Trigger)
      → ((webhook : WebhookTrigger) → ¬ IsActive trigger webhook)
      → wanted answers trigger ≡ no_route
  unfolding wanted of_webhook
  inactive_wanted trigger h = elim (Bool-cases (trigger.type == "webhook" && trigger.enabled)) [
    | inr e ↦ rw e refl
    | inl e ↦ elim (Option-cases trigger.webhook) [
      | inl n ↦ rw e (rw n refl)
      | inr (webhook, w) ↦ absurd (
          h webhook (record {
            has_type = ground (arith, eq_iff trigger.type "webhook");
            is_enabled = ground arith;
            has_webhook = w;
          }))
    ]
  ]

  active_wanted :
      (trigger : Trigger) (webhook : WebhookTrigger)
      → IsActive trigger webhook
      → wanted answers trigger ≡ of_build (build_route_entry answers trigger webhook)
  unfolding wanted of_webhook
  active_wanted trigger webhook a = simp (a.has_type, a.is_enabled, a.has_webhook)

  lookup-handled :
      (trigger : Trigger) (w : TriggerWatcher) (asked : String)
      → lookup_route asked (handle_trigger answers trigger w).registry ≡ (
          if slot trigger == normalize_path asked
          then routed (wanted answers trigger) (lookup_route asked w.registry)
          else lookup_route asked w.registry)
  unfolding handle_trigger
  lookup-handled trigger w asked =
      lookup-route (entry_route_path trigger) asked (wanted answers trigger) w.registry

  other_slot : (s t : String) → s ≢ t → (s == t) ≡ false
  other_slot s t n = elim (String-cases s t) [ inl (p, _) ↦ ground (arith, n p) | inr (_, e) ↦ e ]

  lookup-own :
      (trigger : Trigger) (w : TriggerWatcher) (asked : String)
      → slot trigger ≡ normalize_path asked
      → lookup_route asked (handle_trigger answers trigger w).registry
        ≡ routed (wanted answers trigger) (lookup_route asked w.registry)
  lookup-own trigger w asked own = elim (String-cases (slot trigger) (normalize_path asked)) [
    | inl (_, e) ↦ lookup-handled trigger w asked ∙ rw e refl
    | inr (n, _) ↦ absurd (n own)
  ]

  -- After a Trigger was handled: the route of its path is gone if it is not of type webhook, not enabled
  -- or without a spec.webhook; else it is as before if buildRouteEntry gives an error, and if not, the
  -- entry that it gives, with its method in capitals. The route of each other path is as before.
  pub lookup-handle_trigger :
      (trigger : Trigger) (w : TriggerWatcher) (asked : String)
      → (slot trigger ≡ normalize_path asked
          → (((webhook : WebhookTrigger) → ¬ IsActive trigger webhook)
              → lookup_route asked (handle_trigger answers trigger w).registry ≡ none)
            × ((webhook : WebhookTrigger)
                → IsActive trigger webhook
                → build_route_entry answers trigger webhook ≡ none
                → lookup_route asked (handle_trigger answers trigger w).registry
                  ≡ lookup_route asked w.registry)
            × ((webhook : WebhookTrigger) (entry : RouteEntry)
                → IsActive trigger webhook
                → build_route_entry answers trigger webhook ≡ some entry
                → lookup_route asked (handle_trigger answers trigger w).registry
                  ≡ some (record entry { allowed_method = answers.to_upper entry.allowed_method })))
        × (slot trigger ≢ normalize_path asked
            → lookup_route asked (handle_trigger answers trigger w).registry
              ≡ lookup_route asked w.registry)
  lookup-handle_trigger trigger w asked = (
    λ own.
        let here = lookup-own trigger w asked own in
        (
          λ h. here ∙ rw (inactive_wanted trigger h) refl,
          λ webhook a b. here ∙ rw (active_wanted trigger webhook a) (rw b refl),
          λ webhook entry a b. here ∙ rw (active_wanted trigger webhook a) (rw b refl),
        ),
    λ n.
        lookup-handled trigger w asked
        ∙ rw (other_slot (slot trigger) (normalize_path asked) n) refl,
  )

  lookup-handle_delete :
      (trigger : Trigger) (w : TriggerWatcher) (asked : String)
      → lookup_route asked (handle_delete trigger w).registry
        ≡ (if slot trigger == normalize_path asked then none else lookup_route asked w.registry)
  unfolding handle_delete lookup_route deregister
  lookup-handle_delete trigger w asked =
      lookup-delete (normalize_path asked) (slot trigger) w.registry.routes

-- A Trigger whose path was edited and which then was deleted, as it was last: the route of its first
-- path stays, with the entry of its first version, if that could be built.
pub moved_route_stays :
    (answers : Answers) (first edited : Trigger) (entry : RouteEntry) (w : TriggerWatcher)
    → wanted answers first ≡ built entry
    → slot edited ≢ slot first
    → lookup_route (entry_route_path first) (
        (handle_delete edited
          (handle_trigger answers edited (handle_trigger answers first w))).registry)
      ≡ some (record entry { allowed_method = answers.to_upper entry.allowed_method })
moved_route_stays answers first edited entry w b moved =
    let asked = entry_route_path first in
    let one = handle_trigger answers first w in
    let apart = other_slot answers (slot edited) (slot first) moved in
    lookup-handle_delete answers edited (handle_trigger answers edited one) asked
    ∙ rw apart (
        lookup-handled answers edited one asked
        ∙ rw apart (lookup-handled answers first w asked ∙ rw (eq_refl (slot first)) (rw b refl)))
