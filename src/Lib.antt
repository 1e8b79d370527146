-- ===== src/Lib.antt =====
-- Verification of the NodeTools agent: a panel that edits a configuration of proxy nodes and runs
-- a proxy kernel (sing-box or mihomo) on it.
--
-- The program's parts and the files that model them:
--
-- - core/config.go, the configuration and its validation: Config.Types (records), Config.Errors
--   (error messages as constructors), Config.Inbound, Config.Outbound, Config.Validate
--   (`Validate`), Config.Routing (the helpers of rules, `normalizeRoutingConfig`); Config.Names
--   and Config.Validate.Sound speak of what `Validate` accepts.
-- - core/kernel.go, the kernel object and its process: Platform (`baseKernel` as the record
--   `Kernel`, and the world outside), Kernel (`NewKernel`, `Configure`, `Start`, `Reload`,
--   `Stop`, `startProcess`, `stopProcess`), Kernel.Invariant.
-- - core/certs.go, certificates of inbounds: Certs.
-- - core/manager.go, the manager: Manager.State (`Manager`, snapshots, the heap of kernel
--   objects), Manager.Lists, Manager.Runtime (`enabledRuntime`), Manager.Persist (files and
--   database), Manager.Commit (`commitWithRollbackLocked` and below), Manager.Nodes
--   (`nodeLocked`, `ListNodes`, `diagnoseHealth`), Manager.Requests, Manager.Switch (requests on
--   nodes), Manager.Apply (`ApplyConfig`), Manager.Merge and Manager.Import
--   (`ImportOutbounds…`), Manager.History (the history of configurations), Manager.Steps (all
--   requests as steps from `NewManager` on), Manager.Preview (`PreviewRouting`, and the order of
--   rules of core/kernel.go), Manager.Subscriptions (`dueSubscriptionProviders`,
--   `markSubscriptionUpdated`), Manager.Updates (`UpdateSubscriptions`: download, parse, import,
--   mark). Manager.Find and Manager.Synced relate the maps of nodes to the lists of the
--   configuration.
-- - core/link_parser.go, outbounds read from texts: Links.Texts and Links.Values (helpers, and
--   values of decoded JSON and YAML), Links.Proxies (`parseYAMLProxyList`), Links.SingBox
--   (`parseSingBoxOutboundList`), Links.Share (`parseJSONShare`), Links.Parse
--   (`parseOutboundLink`), Links.Text (`ParseOutboundLinksDetailed`, `uniqueOutbounds`).
-- - core/share.go, links written for nodes: Share.Hosts (`bestShareHost`), Share.Inbound
--   (`inboundShareLink`), Share.Outbound (`outboundShareLink`), Share.Requests (`ShareInbound`,
--   `ShareOutbound`); Share.Outbound.RoundTrip reads what was written with Links.Parse.
-- - core/subscription.go, the preview of a subscription: Subscription.Texts and
--   Subscription.Preview (`PreviewSubscription`, `ParseSubscription`).
-- - core/auth.go, accounts, sessions and the limit on failed logins: Auth and its children.
-- - core/kernel.go, what is written for sing-box: SingBox.Values (the helpers of the maps),
--   SingBox.Inbounds, SingBox.Outbounds and SingBox.Route (`singBoxInbounds`, `singBoxOutbounds`,
--   `singBoxRules`, `routeFinal`, the payload of `GenerateConfig`).
-- - Tests has runs at concrete inputs.
-- - core/api.go gives the bodies of requests (ProxyCreateRequest, ForwardCreateRequest,
--   BatchNodeItem); a handler of the API calls one method of the manager or of Auth.
--
-- How the code is read. A method of the manager is a function from a state to an answer and a
-- state (Exec): what was written before an early return stays written. A state is the manager's
-- record, the kernel objects by address, since a snapshot copies the pointer and not the object,
-- and the world: files, the database, the clock and the process ids. A call of the platform that
-- may fail (a file, a statement of SQL, a process) takes its outcome from a list in the world;
-- theorems hold for every list. The clock counts seconds, and stands still during one request. A
-- request holds the manager's lock from its first read to its last write, so requests follow one
-- another; of `RestoreConfigHistory`, which reads the configuration under a lock of its own before
-- it applies the row, the case is modelled where no other request comes between. Go's maps are
-- association lists: a list shows one of the orders in which `range` may visit a map. A database
-- error, a file error and a kernel error carry the name of the call and no text. Texts are walked
-- by characters; `strings.ToLower` and `TrimSpace` are those of Go on ASCII letters and on all
-- spaces of Unicode.
--
-- Code outside the repository is a parameter: bcrypt (Auth.Bcrypt); the package net in
-- Manager.Preview (the host of a text, its address, and tests on addresses); net/url, base64,
-- JSON and YAML in Links.Library and in Share.Library, where also net and ecdh are; YAML and
-- base64 in Subscription.Preview. The download of an address, `fetchSubscription`, is a parameter
-- of Subscription.Preview and Manager.Updates. Decoded base64 is taken to be text. Manager.Apply
-- and Manager.Import have the parser of links as a parameter, a function from a link to an
-- outbound or nothing; Manager.Updates puts `parseOutboundLink` of Links.Parse there. What a
-- kernel's `GenerateConfig` encodes is the kernel's name and the runtime state that it was given,
-- not the text.
--
-- Fuel: `itoa` has a digit's fuel for each unit of the number and one more; the search for a free
-- name in `uniqueOutboundNameLocked` has a candidate for each outbound and one more.
-- `parseOutboundLink`, `extractLinkCandidates` and `ParseOutboundLinksDetailed` call themselves on
-- texts that were decoded from base64, and have fuel for each character of the text: decoding
-- makes a text shorter (Links.Parse.Ends, Links.Text.Ends).
--
-- Not modelled: the HTTP layer, the probes of nodes over the network, the configuration that
-- is written for mihomo, backups, and core/system.go.
pub mod Prelude
pub mod Config
pub mod Exec
pub mod Platform
pub mod Kernel
pub mod Certs
pub mod Links
pub mod Share
pub mod Subscription
pub mod SingBox
pub mod Manager
pub mod Auth
pub mod Tests
