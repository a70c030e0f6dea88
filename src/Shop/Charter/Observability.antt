-- ===== src/Shop/Charter/Observability.antt =====
-- The dashboard, the ServiceMonitor, the alert rules and their routing.
use shop_operator.Base.{String, ◌<>◌, ◌≡◌, refl, inl, inr, true, [], ◌∷◌, Bool-cases}
use shop_operator.Base.Text.{StringMap}
use shop_operator.Api.{Shop, ObjectMeta}
use shop_operator.Kube.Json.{Json, text, arr, obj}
use shop_operator.Kube.Objects.{Key, Unstructured, shop, custom, config_map}
use shop_operator.Kube.Prog.{is_not_found, is_no_match, Result, ok, err, M, bind, lift, ◌>>=◌}
use shop_operator.Kube.Journal.{
  Journal, Happened, before, Extends, Happened-Extends, journal, OnOk, Safe-then, lift-ok, any-ok,
  Extends-trans, Writable, create_or_update-Safe,
}
use shop_operator.Kube.Lawful.{CreatesOrUpdates}
use shop_operator.Kube.Library.{Library, same_key}
use shop_operator.Kube.Monitor.{Safe, Safe-bind}
use shop_operator.Shop.Names.{resource_name, discord_resource_name, labels_for}
use shop_operator.Shop.Microservice.{shop_microservices}
use shop_operator.Shop.Database.{blank}
use shop_operator.Shop.Monitoring.{
  monitoring_kind, skip_missing_crd, finish_custom, reconcile_service_monitor,
  mutate_service_monitor, service_monitor_spec, scraped_components, release_labels,
  shop_alert_rules, alert_route, alert_receivers, reconcile_prometheus_rule, mutate_prometheus_rule,
  reconcile_alertmanager_config, mutate_alertmanager_config,
}
use shop_operator.Shop.Dashboard.{
  reconcile_grafana_dashboard, app_config_map, mutate_config_map, shop_dashboard,
}
use shop_operator.Shop.Charter.{Answered, charter}
use shop_operator.Shop.Charter.Owning.{Any, own-Safe, child}

module _ (lib : Library) (cu : CreatesOrUpdates lib) (key : Key) (s : Shop) where
  skip-Safe :
      {A : Type 0} (p : M A) (l : Journal)
      → Safe (journal (charter lib key)) (OnOk Any) p l
      → Safe (journal (charter lib key)) (OnOk Any) (bind p skip_missing_crd) l
  skip-Safe p l h =
      Safe-bind (journal (charter lib key)) p skip_missing_crd (OnOk Any) (OnOk Any) l h (elim [
        | ok a ↦ λ l' m. tt
        | err e ↦ λ l' m. elim (Bool-cases (is_no_match e)) [
          | inl missing ↦ rw missing tt
          | inr failed ↦ rw failed tt
        ]
      ])

  module _ (version kind suffix : String) (f : Unstructured → M Unstructured) (l : Journal)
      (held : Happened (Answered lib key s) l) where
    -- The object of the monitoring stack that is kept for the Shop.
    abbrev target : Unstructured
    target = blank s.metadata.namespace (resource_name s <> suffix)

    abbrev Kept : Unstructured → Unstructured → Journal → Type 0
    Kept =
        Writable (charter lib key) lib cu (custom (monitoring_kind version kind)) target f
          (λ a b. Unit) Any l

    custom-Safe :
        ((x : Unstructured) (l' : Journal)
          → Extends l l'
          → Safe (journal (charter lib key)) (OnOk (Kept x)) (f x) l')
        → Safe
            (journal (charter lib key))
            (OnOk Any)
            (lib.create_or_update (custom (monitoring_kind version kind)) target f)
            l
    custom-Safe mutates =
        create_or_update-Safe (charter lib key) lib cu (custom (monitoring_kind version kind))
          target f (λ a b. Unit) Any l tt mutates (λ x x' l' later st. tt) (λ x y l' kept. tt)
          (λ x y l' kept. tt)

    finish-Safe :
        (labels : StringMap String) (x : Unstructured) (body : Json) (l' : Journal)
        → Extends l l'
        → Safe (journal (charter lib key)) (OnOk (Kept x)) (finish_custom lib s labels x body) l'
    finish-Safe labels x body l' later =
        Safe-then (charter lib key) (lift signing) _ (λ owned _. signing ≡ ok owned) (Kept x) l'
          (lift-ok signing signing l' refl)
          (λ owned l'' later' signed.
            let is_child = λ (kept : same_key target.metadata owned ≡ true).
              child lib key s (custom (monitoring_kind version kind)) target.metadata
                (record { metadata = owned; body = body }) labelled l''
                (Happened-Extends (Happened-Extends held later) later') refl (suffix, refl) signed
                kept tt in
            record {
              stepped = tt;
              may_create = λ kept. (is_child kept, tt);
              may_update = λ kept. (is_child kept, refl);
            })
      where
        labelled : ObjectMeta
        labelled = record x.metadata { labels = labels }

        signing : Result ObjectMeta
        signing = lib.set_controller_reference shop s.metadata labelled

    set-Safe :
        (labels : StringMap String) (x : Unstructured) (set : Result Json) (l' : Journal)
        → Extends l l'
        → Safe
            (journal (charter lib key))
            (OnOk (Kept x))
            (lift set >>= finish_custom lib s labels x)
            l'
    set-Safe labels x set l' later =
        Safe-then (charter lib key) (lift set) (finish_custom lib s labels x) Any (Kept x) l'
          (any-ok set l')
          (λ body l'' later' m. finish-Safe labels x body l'' (Extends-trans later later'))

  module _ (l : Journal) (held : Happened (Answered lib key s) l) where
    pub reconcile_service_monitor-Safe :
        Safe (journal (charter lib key)) (OnOk Any) (reconcile_service_monitor lib s) l
    unfolding reconcile_service_monitor mutate_service_monitor
    reconcile_service_monitor-Safe = skip-Safe _ l (
        custom-Safe "v1" "ServiceMonitor" "-metrics" (mutate_service_monitor lib s) l held
          (λ x l' later.
            set-Safe "v1" "ServiceMonitor" "-metrics" (mutate_service_monitor lib s) l held
              (release_labels s) x
              (lib.set_nested_field x.body
                (service_monitor_spec s (scraped_components shop_microservices)) ("spec" ∷ []))
              l' later))

    pub reconcile_prometheus_rule-Safe :
        Safe (journal (charter lib key)) (OnOk Any) (reconcile_prometheus_rule lib s) l
    unfolding reconcile_prometheus_rule mutate_prometheus_rule
    reconcile_prometheus_rule-Safe = skip-Safe _ l (
        custom-Safe "v1" "PrometheusRule" "-alerts" (mutate_prometheus_rule lib s) l held
          (λ x l' later.
            set-Safe "v1" "PrometheusRule" "-alerts" (mutate_prometheus_rule lib s) l held
              (release_labels s) x
              (lib.set_nested_field x.body
                (arr (
                  obj (("name", text "shop.rules") ∷ ("rules", arr (shop_alert_rules s)) ∷ [])
                  ∷ []))
                ("spec" ∷ "groups" ∷ []))
              l' later))

  -- The routing waits for the webhook of the DiscordChannel.
  module _ (receiver webhook_secret_name : String) (l : Journal)
      (held : Happened (Answered lib key s) l) where
    abbrev mutate : Unstructured → M Unstructured
    mutate = mutate_alertmanager_config lib s receiver webhook_secret_name

    mutate-Safe :
        (x : Unstructured) (l' : Journal)
        → Extends l l'
        → Safe
            (journal (charter lib key))
            (OnOk (Kept "v1alpha1" "AlertmanagerConfig" "-alert-routing" mutate l held x))
            (mutate x)
            l'
    unfolding mutate_alertmanager_config
    mutate-Safe x l' later =
        Safe-then (charter lib key) (lift routing) _ Any _ l' (any-ok routing l')
          (λ routed l'' later' m.
            set-Safe "v1alpha1" "AlertmanagerConfig" "-alert-routing" mutate l held (labels_for s) x
              (lib.set_nested_field routed (alert_receivers receiver webhook_secret_name)
                ("spec" ∷ "receivers" ∷ []))
              l'' (Extends-trans later later'))
      where
        routing : Result Json
        routing = lib.set_nested_field x.body (alert_route s receiver) ("spec" ∷ "route" ∷ [])

  module _ (l : Journal) (held : Happened (Answered lib key s) l) where
    -- If `CreateOrUpdate` does only what its documentation allows: reconciling the routing of the
    -- alerts, for a Shop that the server has answered, keeps to the charter: the routing is in the
    -- namespace of the Shop, under its name and with it as the controller.
    pub reconcile_alertmanager_config-Safe :
        Safe (journal (charter lib key)) (OnOk Any) (reconcile_alertmanager_config lib s) l
    unfolding reconcile_alertmanager_config
    reconcile_alertmanager_config-Safe = (
      tt,
      elim [
        | ok found ↦ skip-Safe _ _ (
            custom-Safe "v1alpha1" "AlertmanagerConfig" "-alert-routing"
              (mutate_alertmanager_config lib s ("discord-" <> resource_name s)
                (discord_resource_name s <> "-webhook"))
              _ (before held)
              (mutate-Safe ("discord-" <> resource_name s) (discord_resource_name s <> "-webhook") _
                (before held)))
        | err e ↦ elim (Bool-cases (is_not_found e)) [
          | inl missing ↦ rw missing tt
          | inr failed ↦ rw failed tt
        ]
      ],
    )

    pub reconcile_grafana_dashboard-Safe :
        Safe (journal (charter lib key)) (OnOk Any) (reconcile_grafana_dashboard lib s) l
    unfolding reconcile_grafana_dashboard mutate_config_map
    reconcile_grafana_dashboard-Safe =
        Safe-then (charter lib key) (lift (lib.marshal (shop_dashboard s))) _ Any Any l
          (any-ok (lib.marshal (shop_dashboard s)) l)
          (λ body l' later m.
            Safe-then (charter lib key) _ _ Any Any l'
              (own-Safe lib key s cu config_map _ (app_config_map lib s body)
                (λ x o. record x { metadata = o }) (λ x o. refl) (λ x o e. tt) (λ x l''. tt) tt refl
                ("-dashboard", refl) l' (Happened-Extends held later))
              (λ a l'' later' x. tt))
