-- ===== src/Shop/Monitoring/Selection.antt =====
-- Which objects the ServiceMonitor of a Shop selects, and which alerts its routing matches.
use mathlib.Core.Bool.{and-eq-true_iff}
use shop_operator.Base.{
  String, ◌≡◌, refl, sym, ◌∙◌, ◌↔◌, Bool, true, false, ◌&&◌, ◌||◌, Option, none, some, ◌==◌, eq_iff,
  if◌then◌else◌,
}
use shop_operator.Base.Text.{StringMap, lookup, insert}
use shop_operator.Api.{Shop, ObjectMeta}
use shop_operator.Kube.Json.{Json, Items, Fields, text, flag, array, object, nil, cons, end, field}
use shop_operator.Kube.Objects.{Service}
use shop_operator.Kube.Library.{Library}
use shop_operator.Shop.Network.{app_service}
use shop_operator.Shop.Microservice.{Microservice, shop_microservices}
use shop_operator.Shop.Names.{labels_for, labels_for_component}
use shop_operator.Shop.Names.Injective.{Member, here, there}
use shop_operator.Shop.Monitoring.{
  scraped_components, service_monitor_spec, alert_route, shop_alert_rules, shop_alert_rule,
}

-- The value of a field, or an object with no fields.
unfoldable pub at_field : String → Fields → Json
at_field k end = object end
at_field k (field j v fs) = if j == k then v else at_field k fs

unfoldable pub at : String → Json → Json
unfolding at_field
at k (object fs) = at_field k fs
at k _ = object end

is_text : Json → String → Bool
is_text (text t) s = t == s
is_text _ s = false

is_some_text : Json → Option String → Bool
unfolding is_text
is_some_text v (some s) = is_text v s
is_some_text v none = false

has_item : Items → String → Bool
unfolding is_text
has_item nil s = false
has_item (cons v vs) s = is_text v s || has_item vs s

one_of : Json → Option String → Bool
unfolding has_item
one_of (array vs) (some s) = has_item vs s
one_of _ _ = false

-- `matchLabels`: each label is there with its value.
has_labels : Fields → StringMap String → Bool
unfolding is_some_text lookup
has_labels end labels = true
has_labels (field k v fs) labels = is_some_text v (lookup k labels) && has_labels fs labels

label_of : Json → StringMap String → Option String
unfolding lookup
label_of (text k) labels = lookup k labels
label_of _ labels = none

-- An expression with the operator `In`: the label is there and its value is one of the values.
meets : Json → StringMap String → Bool
unfolding at one_of label_of is_text
meets e labels =
    is_text (at "operator" e) "In" && one_of (at "values" e) (label_of (at "key" e) labels)

meets_all : Items → StringMap String → Bool
unfolding meets
meets_all nil labels = true
meets_all (cons e es) labels = meets e labels && meets_all es labels

selects_by : Json → Json → StringMap String → Bool
unfolding has_labels meets_all
selects_by (object required) (array expressions) labels =
    has_labels required labels && meets_all expressions labels
selects_by _ _ labels = false

-- Whether the label selector of a ServiceMonitor selects an object with the given labels, as
-- Kubernetes documents selectors.
pub selects : Json → StringMap String → Bool
unfolding at selects_by
selects spec labels =
    selects_by (at "matchLabels" (at "selector" spec)) (at "matchExpressions" (at "selector" spec))
      labels

-- Each matcher of a route asks for a label of the alert with the value.
matches_all : Items → Json → Bool
unfolding at
matches_all nil alert = true
matches_all (cons m ms) alert = matches_one (at "name" m) (at "value" m) && matches_all ms alert
  where
    matches_one : Json → Json → Bool
    matches_one (text k) (text v) = is_text (at k (at "labels" alert)) v
    matches_one _ _ = false

pub matches : Json → Json → Bool
unfolding matches_all at
matches route alert = matches_items (at "matchers" route)
  where
    matches_items : Json → Bool
    matches_items (array ms) = matches_all ms alert
    matches_items _ = false

equal_iff : (a b : String) → ((a == b && true) ≡ true) ↔ (b ≡ a)
equal_iff a b = (
  λ h. sym ((eq_iff a b).0 ((and-eq-true_iff (a == b) true).0 h).0),
  λ equal. (and-eq-true_iff (a == b) true).1 ((eq_iff a b).1 (sym equal), refl),
)

equal_and_iff : (a b : String) (c : Bool) → ((a == b && true && c) ≡ true) ↔ ((b ≡ a) × (c ≡ true))
equal_and_iff a b c = (
  λ h.
      let (equal, rest) = (and-eq-true_iff (a == b && true) c).0 h in
      ((equal_iff a b).0 equal, rest),
  λ (equal, rest). (and-eq-true_iff (a == b && true) c).1 ((equal_iff a b).1 equal, rest),
)

-- The namespaces that a `namespaceSelector` of a ServiceMonitor allows, by its documentation: all if
-- `any` is set, else those that `matchNames` lists, and its own without such a list.
is_set : Json → Bool
is_set (flag b) = b
is_set _ = false

names_or_own : Json → String → String → Bool
unfolding has_item
names_or_own (array names) own namespace = has_item names namespace
names_or_own _ own namespace = own == namespace

allows : Json → String → String → Bool
unfolding at is_set names_or_own
allows selector own namespace =
    is_set (at "any" selector) || names_or_own (at "matchNames" selector) own namespace

-- Whether a ServiceMonitor with a specification selects a Service, by the metadata of both.
pub selects_service : ObjectMeta → Json → ObjectMeta → Bool
unfolding at allows selects
selects_service monitor spec o =
    allows (at "namespaceSelector" spec) monitor.namespace o.namespace && selects spec o.labels

selects_labels_iff :
    (s s' : Shop) (m : Microservice)
    → Member m shop_microservices
    → (selects
          (service_monitor_spec s (scraped_components shop_microservices))
          (labels_for_component s' m.name)
        ≡ true)
      ↔ ((s'.metadata.name ≡ s.metadata.name) × (m.has_metrics ≡ true))
unfolding selects service_monitor_spec scraped_components labels_for_component labels_for insert
selects_labels_iff s s' m here = equal_and_iff s.metadata.name s'.metadata.name true
selects_labels_iff s s' m (there here) = equal_and_iff s.metadata.name s'.metadata.name true
selects_labels_iff s s' m (there (there here)) = equal_and_iff s.metadata.name s'.metadata.name true
selects_labels_iff s s' m (there (there (there here))) =
    equal_and_iff s.metadata.name s'.metadata.name true
selects_labels_iff s s' m (there (there (there (there here)))) =
    equal_and_iff s.metadata.name s'.metadata.name false
selects_labels_iff s s' m (there (there (there (there (there x))))) = elim x [ ]

both_iff :
    {P : Type 0} (a b a' b' : String) (c : Bool)
    → a ≡ a'
    → b ≡ b'
    → (c ≡ true) ↔ P
    → ((a == b && c) ≡ true) ↔ ((b' ≡ a') × P)
both_iff a b a' b' c ha hb iff = (
  λ h.
      let (equal, rest) = (and-eq-true_iff (a == b) c).0 h in
      (sym hb ∙ sym ((eq_iff a b).0 equal) ∙ ha, iff.0 rest),
  λ (equal, p). (and-eq-true_iff (a == b) c).1 ((eq_iff a b).1 (ha ∙ sym equal ∙ sym hb), iff.1 p),
)

-- A ServiceMonitor with the specification for a Shop, in the namespace of the Shop, selects the
-- Service of a microservice, of the same or of another Shop, in the namespace of that Shop,
-- exactly if the Shops have the same namespace and the same name and the microservice has metrics.
pub selects-service_monitor_spec_iff :
    (lib : Library) (s s' : Shop) (m : Microservice) (monitor : ObjectMeta) (o : Service)
    → Member m shop_microservices
    → monitor.namespace ≡ s.metadata.namespace
    → o.metadata.namespace ≡ s'.metadata.namespace
    → (selects_service monitor
          (service_monitor_spec s (scraped_components shop_microservices))
          (app_service lib s' m o).metadata
        ≡ true)
      ↔ ((s'.metadata.namespace ≡ s.metadata.namespace)
          × ((s'.metadata.name ≡ s.metadata.name) × (m.has_metrics ≡ true)))
unfolding selects_service service_monitor_spec app_service
selects-service_monitor_spec_iff lib s s' m monitor o member beside beside' =
    both_iff monitor.namespace o.metadata.namespace s.metadata.namespace s'.metadata.namespace _
      beside beside' (selects_labels_iff s s' m member)

-- The routing of the alerts of a Shop matches an alert of the rules of the same or of another Shop
-- exactly if the Shops have the same name.
pub matches-alert_route_iff :
    (s s' : Shop) (receiver : String) (alert : Json)
    → Member alert (shop_alert_rules s')
    → (matches (alert_route s receiver) alert ≡ true) ↔ (s.metadata.name ≡ s'.metadata.name)
unfolding matches is_text alert_route shop_alert_rules shop_alert_rule
matches-alert_route_iff s s' receiver alert here = equal_iff s'.metadata.name s.metadata.name
matches-alert_route_iff s s' receiver alert (there here) =
    equal_iff s'.metadata.name s.metadata.name
matches-alert_route_iff s s' receiver alert (there (there x)) = elim x [ ]
