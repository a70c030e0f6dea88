-- ===== src/Tests/AtWork.antt =====
-- A cluster in which everything is at work, and its answers.
use mathlib.Core.Path.{subst}
use shop_operator.Base.{ℕ, ◌≡◌, refl, sym, ◌∙◌, inl, inr, false, none, [], arith}
use shop_operator.Api.{Shop}
use shop_operator.Kube.Json.{obj}
use shop_operator.Kube.Objects.{
  Key, Kind, Obj, named, key_of, meta_of, shop, wallet, discord_channel, secret, config_map,
  deployment, stateful_set, service, ingress, job, custom,
}
use shop_operator.Kube.Prog.{
  Error, Result, ok, err, Request, get, create, update, update_status, read_random, http_do,
  create_channel, delete_channel, create_webhook,
}
use shop_operator.Kube.Journal.{Event}
use shop_operator.Kube.Outcome.{Refused, Misnamed, LibraryFails, not_owned, not_set, not_marshalled}
use shop_operator.Kube.Run.{Handler}
use shop_operator.Shop.Microservice.{Microservice}
use shop_operator.Shop.Names.{desired_replicas}
use shop_operator.Shop.Charter.{Answered, Serves, read, made, changed}
use shop_operator.Shop.Reasons.{DatabaseDown, Pending}
use shop_operator.Shop.Reasons.Settling.{IsAtWork}
use shop_operator.Tests.Cluster.{a_library, key, a_shop, a_discord_channel}

-- An object with a key.
abbrev blank : (k : Kind) → Key → Obj k
blank shop q = record a_shop { metadata = named q.namespace q.name }
blank wallet q = record {
  metadata = named q.namespace q.name;
  spec = record { shop_ref = ""; address = "" };
  status = record { conditions = []; address = ""; ready = false };
}
blank discord_channel q = record (a_discord_channel "" "") { metadata = named q.namespace q.name }
blank secret q = record { metadata = named q.namespace q.name; content = []; string_data = [] }
blank config_map q = record { metadata = named q.namespace q.name; content = [] }
blank deployment q = record {
  metadata = named q.namespace q.name;
  replicas = none;
  selector = [];
  template_labels = [];
  containers = [];
  ready_replicas = 0;
}
blank stateful_set q = record { metadata = named q.namespace q.name; ready_replicas = 0 }
blank service q = record {
  metadata = named q.namespace q.name;
  selector = [];
  type = "";
  ports = [];
}
blank ingress q = record {
  metadata = named q.namespace q.name;
  ingress_class_name = none;
  rules = [];
}
blank job q = record {
  metadata = named q.namespace q.name;
  backoff_limit = 0;
  ttl_seconds_after_finished = 0;
  restart_policy = "";
  containers = [];
  succeeded = 0;
}
blank (custom g) q = record { metadata = named q.namespace q.name; body = obj [] }

-- What the cluster makes of an object.
abbrev at_work : (k : Kind) → Obj k → Obj k
at_work shop o = record o { spec = a_shop.spec }
at_work deployment o = record o { ready_replicas = desired_replicas a_shop.spec.availability }
at_work stateful_set o = record o { ready_replicas = 1 }
at_work job o = record o { succeeded = 1 }
at_work wallet o = o
at_work discord_channel o = o
at_work secret o = o
at_work config_map o = o
at_work service o = o
at_work ingress o = o
at_work (custom g) o = o

abbrev pub working : Handler (Unit {0})
working (get k q) w = (ok (at_work k (blank k q)), w)
working (create k o) w = (ok (at_work k o), w)
working (update k o) w = (ok (at_work k o), w)
working (update_status k o) w = (ok (at_work k o), w)
working (read_random n) w = (ok [], w)
working (http_do r) w = (ok (record { status_code = 200; content = ok "" }), w)
working (create_channel t s n) w = (ok "42", w)
working (delete_channel t c) w = (ok tt, w)
working (create_webhook t c n) w = (ok ("9", "t"), w)

Shows : (k : Kind) → Result (Obj k) → Type 0
Shows shop (ok o) = o.spec ≡ a_shop.spec
Shows deployment (ok o) = o.ready_replicas ≡ desired_replicas a_shop.spec.availability
Shows stateful_set (ok o) = o.ready_replicas ≡ 1
Shows job (ok o) = o.succeeded ≡ 1
Shows k (ok o) = Unit
Shows k (err e) = ⊥

IsFine : Event → Type 0
unfolding Shows
IsFine (get k q, x) = Shows k x
IsFine (create k o, x) = Shows k x
IsFine (update k o, x) = Shows k x
IsFine (update_status k o, x) = Shows k x
IsFine _ = Unit

at_work-Shows : (k : Kind) (o : Obj k) → Shows k (ok (at_work k o))
unfolding Shows
at_work-Shows shop o = refl
at_work-Shows deployment o = refl
at_work-Shows stateful_set o = refl
at_work-Shows job o = refl
at_work-Shows wallet o = tt
at_work-Shows discord_channel o = tt
at_work-Shows secret o = tt
at_work-Shows config_map o = tt
at_work-Shows service o = tt
at_work-Shows ingress o = tt
at_work-Shows (custom g) o = tt

working-IsFine : (q : Request) → IsFine (q, (working q tt).0)
unfolding IsFine
working-IsFine (get k q) = at_work-Shows k (blank k q)
working-IsFine (create k o) = at_work-Shows k o
working-IsFine (update k o) = at_work-Shows k o
working-IsFine (update_status k o) = at_work-Shows k o
working-IsFine (read_random n) = tt
working-IsFine (http_do r) = tt
working-IsFine (create_channel t s n) = tt
working-IsFine (delete_channel t c) = tt
working-IsFine (create_webhook t c n) = tt

not_refused : (q : Request) (f : Error) → ¬ Refused f (q, (working q tt).0)
not_refused (get k q) f h = cc
not_refused (create k o) f h = cc
not_refused (update k o) f h = cc
not_refused (update_status k o) f h = cc
not_refused (read_random n) f h = cc
not_refused (http_do r) f h = cc
not_refused (create_channel t s n) f h = cc
not_refused (delete_channel t c) f h = cc
not_refused (create_webhook t c n) f h = cc

named_so : (k : Kind) (q : Key) → key_of (meta_of k (at_work k (blank k q))) ≡ q
named_so shop q = refl
named_so deployment q = refl
named_so stateful_set q = refl
named_so job q = refl
named_so wallet q = refl
named_so discord_channel q = refl
named_so secret q = refl
named_so config_map q = refl
named_so service q = refl
named_so ingress q = refl
named_so (custom g) q = refl

Obj-ok : {A : Type 0} (x y : A) (P : A → Type 0) → ok x ≡ ok y → P x → P y
Obj-ok x y P h p = let same : x ≡ y = cc in subst P same p

not_misnamed : (q : Request) → ¬ Misnamed (q, (working q tt).0)
not_misnamed (get k q) (o, same, other) =
    other (Obj-ok (at_work k (blank k q)) o (λ x. key_of (meta_of k x) ≡ q) same (named_so k q))
not_misnamed (create k o) h = h
not_misnamed (update k o) h = h
not_misnamed (update_status k o) h = h
not_misnamed (read_random n) h = h
not_misnamed (http_do r) h = h
not_misnamed (create_channel t s n) h = h
not_misnamed (delete_channel t c) h = h
not_misnamed (create_webhook t c n) h = h

pub a_library_sound : (e : Error) → ¬ LibraryFails a_library e
a_library_sound e (not_owned k owner o failed) = cc
a_library_sound e (not_set body v path failed) = cc
a_library_sound e (not_marshalled v failed) = cc

shops-IsFine : (s : Shop) (e : Event) → IsFine e → Answered a_library key s e → s.spec ≡ a_shop.spec
unfolding IsFine
shops-IsFine s e fine (inl same) = subst IsFine same fine
shops-IsFine s e fine (inr (o, same)) = subst IsFine same fine

database-IsFine : (s : Shop) (e : Event) → IsFine e → ¬ DatabaseDown a_library key s e
unfolding IsFine
database-IsFine s e fine (inl (t, none_ready, same)) =
    let up : t.ready_replicas ≡ 1 = subst IsFine same fine in absurd (omega arith)
database-IsFine s e fine (inr (inl (f, gone, same))) = subst IsFine same fine
database-IsFine s e fine (inr (inr (c, lacks, shown))) = lacks (1, omega arith, refl)

deployments-IsFine :
    (s : Shop) (m : Microservice) (n : ℕ) (e : Event)
    → IsFine e
    → Serves a_library key s m n e
    → n ≡ desired_replicas a_shop.spec.availability
unfolding IsFine
deployments-IsFine s m n e fine (read k d named_k many) = sym many ∙ fine
deployments-IsFine s m n e fine (made o d named_o many) = sym many ∙ fine
deployments-IsFine s m n e fine (changed o d named_o many) = sym many ∙ fine

jobs-IsFine : (s : Shop) (m : Microservice) (e : Event) → IsFine e → ¬ Pending a_library key s m e
unfolding IsFine
jobs-IsFine s m e fine (inl (f, gone, same)) = subst IsFine same fine
jobs-IsFine s m e fine (inr (j, pending, same)) =
    let done : j.succeeded ≡ 1 = subst IsFine same fine in absurd (omega arith)

pub working-IsAtWork :
    (q : Request) (v : Unit {0}) → IsAtWork a_library key a_shop.spec (q, (working q v).0)
working-IsAtWork q v =
    let fine = working-IsFine q in
    record {
      answered = not_refused q;
      named = not_misnamed q;
      shops = λ s. shops-IsFine s _ fine;
      database = λ s has_spec. database-IsFine s _ fine;
      deployments = λ s m n has_spec. deployments-IsFine s m n _ fine;
      jobs = λ s m has_spec. jobs-IsFine s m _ fine;
    }
