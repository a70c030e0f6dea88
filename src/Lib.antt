-- ===== src/Lib.antt =====
-- The shop operator: Kubernetes controllers, written in Go, that keep the objects of an online shop.
--
-- A Shop (api/v1/shop_types.go) is a custom resource. Its controller
-- (internal/controller/shop_controller.go) makes and keeps, for each Shop, a Wallet and a
-- DiscordChannel, a database, the Secrets, Deployments, Services and migration Jobs of five
-- microservices, an Ingress, and the objects that monitor them. The Wallet and the DiscordChannel are
-- custom resources with controllers of their own: the first checks a payout address and publishes
-- it, the second creates a channel and a webhook on Discord and deletes the channel again. The
-- controllers meet only in the API server: the Shop controller reads the address that the Wallet
-- controller has published, and the Secret of the webhook that the DiscordChannel controller has
-- created.
--
-- How the program is modelled. A controller is a program over requests (Kube/Prog.antt): it is a tree
-- of requests with one subtree for each answer that a request may get, errors among them. `Reconcile`
-- and everything that it calls are functions into such programs, with the name of the Go function
-- in snake case, the same guards and the same order of calls. A Go function that returns a value
-- and an error is a program with a `Result`. What a write answers is what the Go client stores into
-- the object. A theorem about a controller speaks of a monitor (Kube/Monitor.antt) that sees every
-- request with its answer: `Safe` says that each request is allowed where it is made and that the
-- outcome is as stated, for all answers. Programs are finite trees, so a reconcile ends after
-- finitely many requests whatever is answered, and there is no fuel anywhere.
--
-- Base.antt, Base/: names of the libraries, tests on numbers, texts, maps as association lists.
-- Api.antt: the custom resources of api/v1.
-- Kube.antt, Kube/: the objects of the cluster with the fields that are used, requests and
-- programs, the parameter `Library` for the packages that are not in the repository
-- (controller-runtime, apimachinery, net/http, encoding/json, crypto/sha256, os.Getenv) and the
-- hypotheses about them (Lawful.antt), monitors and journals, and runs against a server with a state.
-- Wallet.antt, Wallet/: internal/wallet/address.go, internal/controller/wallet_controller.go.
-- Discord/ChannelName.antt, Discord/Client.antt: internal/discord/client.go.
-- Discord/Controller.antt: internal/controller/discordchannel_controller.go. Discord/Protocol.antt
-- says in which order it may act, Discord/Protocol/ has the proofs, and runs against servers that fail.
-- Discord/Wire.antt, Discord/Wire/: the controller with the client over HTTP, as cmd/main.go joins them.
-- Shop/: internal/controller/shop_controller.go by its parts, shop_dashboard.go (Dashboard.antt)
-- and shop_alerts.go (Monitoring.antt). Shop/Charter.antt says what the controller may do to the
-- cluster and what a status may claim, Shop/Charter/ has the proofs, a file for each part.
-- Shop/Reasons.antt, Shop/Reasons/: why a reconcile of a Shop ends as it does, and with which rights.
-- Shop/Passwords.antt: in which order the Secret of Redis and Redis are made, and who reads the Secret.
-- Shop/Repeating.antt, Shop/Quiet.antt: what a second reconcile makes of what the first one made.
-- Access.antt: the role of the operator, config/rbac/role.yaml, which controller-gen makes from the
-- markers in internal/controller. RBAC itself, as documented, is the function is_granted.
-- Manager.antt, Manager/: cmd/main.go, as a tree of the calls that may fail with what follows each
-- success and each failure, and the SetupWithManager functions of internal/controller.
-- Tests.antt, Tests/: libraries that keep the hypotheses, servers, and the theorems at concrete inputs.
--
-- Numbers are natural numbers: the source's integers here are ports, replica counts and status codes,
-- on which it does no arithmetic. `RequeueAfter` is in seconds. A `ready_replicas` that is missing in
-- the object is 0.
--
-- Not modelled: generated code and the registration of the API group; logging and its options; the
-- reading of certificates, the work queue and the cache of controller-runtime; the fields of objects that no
-- controller reads or writes; the CRD validation. Contexts and their cancellation are errors among the
-- answers. The text of an error is kept, its wrapped chain is not.
pub mod Base
pub mod Api
pub mod Kube
pub mod Access
pub mod Manager
pub mod Wallet
pub mod Discord
pub mod Shop
mod Tests
