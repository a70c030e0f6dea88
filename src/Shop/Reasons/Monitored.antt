-- ===== src/Shop/Reasons/Monitored.antt =====
-- The ServiceMonitor, the alert rules and their routing.
use shop_operator.Base.{String, ◌<>◌, ◌≡◌, refl, inl, inr, [], ◌∷◌, Bool-cases, ap, true}
use shop_operator.Base.Text.{StringMap}
use shop_operator.Access.{manager_role, is_granted}
use shop_operator.Api.{Shop, ObjectMeta}
use shop_operator.Kube.Json.{Json, text, arr, obj}
use shop_operator.Kube.Objects.{Unstructured, GroupVersionKind, shop, custom, key_of}
use shop_operator.Kube.Prog.{
  is_not_found, is_no_match, ok, err, get, create, update, M, bind, pure, lift, ◌>>=◌,
}
use shop_operator.Kube.Journal.{Journal, journal}
use shop_operator.Kube.Lawful.{CreatesOrUpdates, SetsController}
use shop_operator.Kube.Library.{Library}
use shop_operator.Kube.Monitor.{Safe-bind}
use shop_operator.Kube.Outcome.{
  Ensures, Ensures-owned, Ensures-set, create_or_update-Ensures, Outcome, permits,
}
use shop_operator.Shop.Microservice.{shop_microservices}
use shop_operator.Shop.Names.{resource_name, discord_resource_name, labels_for}
use shop_operator.Shop.Monitoring.{
  monitoring_kind, skip_missing_crd, finish_custom, reconcile_service_monitor,
  mutate_service_monitor, service_monitor_spec, scraped_components, release_labels,
  shop_alert_rules, alert_route, alert_receivers, reconcile_prometheus_rule, mutate_prometheus_rule,
  reconcile_alertmanager_config, mutate_alertmanager_config,
}
use shop_operator.Shop.Charter.Owning.{Any}
use shop_operator.Shop.Reasons.Owned.{Done}

module _ (lib : Library) (cu : CreatesOrUpdates lib) (law : SetsController lib) (s : Shop) where
  -- The function keeps the name of what it changes.
  abbrev Keeps : (Unstructured → M Unstructured) → Type 0
  Keeps f =
      (x : Unstructured) (l : Journal)
      → Ensures manager_role lib (λ x' l'. (key_of x'.metadata ≡ key_of x.metadata) × Unit {0})
          (f x) l

  finish-Keeps :
      (labels : StringMap String) (body : Json) → Keeps (λ x. finish_custom lib s labels x body)
  finish-Keeps labels body x l =
      let labelled : ObjectMeta = record x.metadata { labels = labels } in
      Ensures-owned manager_role lib shop s.metadata labelled
        (λ owned. pure (record { metadata = owned; body = body }))
        (λ x' l'. (key_of x'.metadata ≡ key_of x.metadata) × Unit {0}) l
        (λ owned signed. (ap key_of (law.keeps shop s.metadata labelled owned signed), tt))

  skip-Ensures :
      {A : Type 0} (p : M A) (l : Journal)
      → ((l' : Journal) → Done lib cu law s p l')
      → Done lib cu law s (bind p skip_missing_crd) l
  skip-Ensures p l h =
      Safe-bind (journal (permits manager_role)) p skip_missing_crd (Outcome manager_role lib Any)
        (Outcome manager_role lib Any) l (h l)
        (elim [
          | ok a ↦ λ l' m. tt
          | err e ↦ λ l' m. elim (Bool-cases (is_no_match e)) [
            | inl missing ↦ rw missing tt
            | inr failed ↦ rw failed m
          ]
        ])

  kept-Ensures :
      (g : GroupVersionKind) (o : Unstructured) (f : Unstructured → M Unstructured) (l : Journal)
      → is_granted manager_role (get (custom g) (key_of o.metadata)) ≡ true
      → ((x : Unstructured) → is_granted manager_role (create (custom g) x) ≡ true)
      → ((x : Unstructured) → is_granted manager_role (update (custom g) x) ≡ true)
      → Keeps f
      → Done lib cu law s (bind (lib.create_or_update (custom g) o f) skip_missing_crd) l
  kept-Ensures g o f l may_get may_create may_update keeps =
      skip-Ensures (lib.create_or_update (custom g) o f) l (λ l'.
        create_or_update-Ensures manager_role lib cu (custom g) o f (λ a b. Unit) Any l' may_get
          may_create may_update (λ x l'' later. keeps x l'') (λ x x' l'' same later st. tt)
          (λ x y l'' same. tt) (λ x y l'' same. tt))

  pub reconcile_service_monitor-Ensures :
      (l : Journal) → Done lib cu law s (reconcile_service_monitor lib s) l
  unfolding reconcile_service_monitor mutate_service_monitor is_granted manager_role
  reconcile_service_monitor-Ensures l =
      kept-Ensures (monitoring_kind "v1" "ServiceMonitor") _ (mutate_service_monitor lib s) l refl
        (λ x. refl) (λ x. refl)
        (λ x l'.
          Ensures-set manager_role lib x.body
            (service_monitor_spec s (scraped_components shop_microservices)) ("spec" ∷ [])
            (finish_custom lib s (release_labels s) x) _ l'
            (λ b. finish-Keeps (release_labels s) b x l'))

  pub reconcile_prometheus_rule-Ensures :
      (l : Journal) → Done lib cu law s (reconcile_prometheus_rule lib s) l
  unfolding reconcile_prometheus_rule mutate_prometheus_rule is_granted manager_role
  reconcile_prometheus_rule-Ensures l =
      kept-Ensures (monitoring_kind "v1" "PrometheusRule") _ (mutate_prometheus_rule lib s) l refl
        (λ x. refl) (λ x. refl)
        (λ x l'.
          Ensures-set manager_role lib x.body
            (arr
              (obj (("name", text "shop.rules") ∷ ("rules", arr (shop_alert_rules s)) ∷ []) ∷ []))
            ("spec" ∷ "groups" ∷ []) (finish_custom lib s (release_labels s) x) _ l'
            (λ b. finish-Keeps (release_labels s) b x l'))

  mutate_alertmanager_config-Keeps :
      (receiver webhook_secret_name : String)
      → Keeps (mutate_alertmanager_config lib s receiver webhook_secret_name)
  unfolding mutate_alertmanager_config
  mutate_alertmanager_config-Keeps receiver webhook_secret_name x l =
      Ensures-set manager_role lib x.body (alert_route s receiver) ("spec" ∷ "route" ∷ [])
        (λ routed.
          lift (
            lib.set_nested_field routed (alert_receivers receiver webhook_secret_name)
              ("spec" ∷ "receivers" ∷ []))
          >>= finish_custom lib s (labels_for s) x)
        (λ x' l'. (key_of x'.metadata ≡ key_of x.metadata) × Unit {0}) l
        (λ routed.
          Ensures-set manager_role lib routed (alert_receivers receiver webhook_secret_name)
            ("spec" ∷ "receivers" ∷ []) (finish_custom lib s (labels_for s) x)
            (λ x' l'. (key_of x'.metadata ≡ key_of x.metadata) × Unit {0}) l
            (λ b. finish-Keeps (labels_for s) b x l))

  pub reconcile_alertmanager_config-Ensures :
      (l : Journal) → Done lib cu law s (reconcile_alertmanager_config lib s) l
  unfolding reconcile_alertmanager_config is_granted manager_role
  reconcile_alertmanager_config-Ensures l = (
    refl,
    elim [
      | ok found ↦
          kept-Ensures (monitoring_kind "v1alpha1" "AlertmanagerConfig") _
            (mutate_alertmanager_config lib s ("discord-" <> resource_name s)
              (discord_resource_name s <> "-webhook"))
            _ refl (λ x. refl) (λ x. refl)
            (mutate_alertmanager_config-Keeps ("discord-" <> resource_name s)
              (discord_resource_name s <> "-webhook"))
      | err e ↦ elim (Bool-cases (is_not_found e)) [
        | inl missing ↦ rw missing tt
        | inr failed ↦ rw failed (inl refl)
      ]
    ],
  )
