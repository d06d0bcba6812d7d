-- ===== src/Lib.antt =====
-- A verification of the browser client of cloudflared-manager, the TypeScript under web/src: what it
-- does to a tunnel's public hostnames and settings, to DNS records, accounts, alert rules and an instance's
-- configuration, how it finds a token in pasted text, how it stays connected to the daemon's event stream
-- and to an instance's log, how it keeps its session, how it updates the daemon and the binaries of cloudflared,
-- and how it watches the host.
--
-- The parts, and how they correspond to the code:
--
-- Base holds what the parts share: Boolean tests and lists over native numbers, and JavaScript strings.
-- A string is the list of its UTF-16 code units, so indices, lengths and slices are those of the
-- program; `trim` removes the white space and line terminators of the language, listed one by one.
-- `toLowerCase` is a parameter, the record `Casing` in Base/Lower: its Unicode table belongs to the
-- engine, and the theorems use that it maps ASCII text unit by unit; `ascii_casing` is an instance.
--
-- Api is web/src/api. Api/Types has the shapes of types.ts that the modelled code reads and writes, and
-- Api/Json what the language does with JSON values: fields, truth, `String`. An optional field is an
-- `Option`; where its type is declared, `null` and a missing field are one, as the code tests for them.
-- A number is the bit pattern of its double, and `unknown` a JSON value.
--
-- Api/Update is waitForRestart of update.ts, in a browser whose clock, timer and version request are a
-- parameter; Api/Update/Simulated is an instance.
--
-- Api/Client is client.ts: getAPIToken, setAPIToken, clearAPIToken and the interceptors over the entry of the local
-- storage and the address of the page, Api/Client/Session these over a sequence of events, Api/Client/Routes the
-- calls of configsApi, binariesApi, autoUpdateApi, validateApi, metricsApi, instanceApi and cfApi as the
-- configurations that axios is given, and Api/Client/Stream logStreamUrl. Api/Client/Routes/Table has the routes that
-- internal/api/server.go and internal/api/cf.go register, and how a path is matched against them.
-- encodeURIComponent, on texts without lone surrogates, and the decimal text of an integer are the parameter `Uri`:
-- the theorems use that no '/', '?' or '#' is left in what they return. URLSearchParams.toString is a parameter.
--
-- Login is web/src/pages/Login.tsx, the effect and onFinish, with the session that they change.
--
-- Updates is the rest of update.ts and web/src/components/UpdateCard.tsx: runCheck, doUpdate with pollLog,
-- confirmUpdate and logLineColor, in Updates/Card, cut at their `await`s. Each call of doUpdate is numbered and has
-- its own `polling`. Updates/Binaries is web/src/pages/Binaries.tsx: loadList, loadAutoStatus, the listener,
-- handleAutoRun, handleCheckAvailable, handleInstall, handleActivate and handleDelete. Updates/Auto is
-- web/src/components/AutoUpdateCard.tsx: load, onSave, trigger, the listener and StateTag.
--
-- Monitor has fmtUptime, fmtBytes, fmtRate, formatBytes and fmtDuration of web/src/pages/System.tsx, Dashboard.tsx and
-- Binaries.tsx and of web/src/components/instance/format.ts, on natural numbers, with toFixed as a parameter; dividing
-- a double by 1024 is exact, so the loops are over integers. Monitor/Window is the window of the last items,
-- Monitor/Pump the polling of System.tsx and Monitor/Board the listener, fetchConfigs, the polling and eventSummary of
-- Dashboard.tsx. The quotient of a count of bytes by a time, as a double, is a parameter.
--
-- Instance is the state of the views of web/src/components/instance: Instance/Live is the effect of
-- InstanceDetailPanel.tsx and its statusBadge, Instance/Timeline the listener of InstanceEvents.tsx, and
-- Instance/Metrics the effects and `load` of web/src/pages/Traffic.tsx, which InstanceMetrics.tsx shares. The runs of
-- an effect are numbered, so that an answer belongs to the run that asked for it.
--
-- Token/Commands is buildCommands and `load` of web/src/components/cf/TunnelTokenTab.tsx, and Ingress/Modal the effects
-- and handleOk of web/src/components/cf/PublicHostnameModal.tsx, over sequences of openings, answers and confirmations. As in antd, the values
-- that are handed on are those of the fields that have been rendered; the originRequest fields are once their section is
-- unfolded.
--
-- Ingress is web/src/pages/cfIngress.ts. Ingress/Rules has the operations on the ingress array of a
-- tunnel configuration: isCatchAll is `is_catch_all`, listHostnameRules `list_hostname_rules`,
-- ensureCatchAll `ensure_catch_all`, appendHostnameRule `append_hostname_rule`, replaceRuleAt
-- `replace_rule_at`, removeRuleAt `remove_rule_at` and reorderHostnames `reorder_hostnames`; its child
-- modules have the shape that the edits keep and their refinement to a list of hostname rules.
-- Ingress/Service is parseService and buildService with the table SERVICE_TYPES. Ingress/Hostname is
-- pickZone, buildHostname and splitHostname. Ingress/Dns is syncProxyCNAME and deleteProxyCNAME: the
-- requests of `cfApi` are a record of state-passing functions, a rejected promise is an error value,
-- and Ingress/Dns/Service states what a DNS service does to the records of a zone when it accepts a write and when
-- it refuses it.
--
-- Ingress/Seconds is toSeconds: its regular expressions as functions on the text. Ingress/Origin is
-- buildOriginRequest, originRequestToForm and originRequestTags over the key lists of the form, and
-- Ingress/Form is formToPayload, formToIngressRule, ingressRuleToForm and publicHostnameToForm. The
-- engine's arithmetic on doubles (`Number(text)`, `+`, `*`, `Math.round`, `String(n)`) is the parameter
-- `Numbers` of Api/Json, of which the theorems use that rounding twice is rounding once and that the
-- rounding of a finite number is finite; the tests for NaN, infinity and zero are on the bit pattern.
--
-- Ingress/Panel is web/src/components/cf/PublicHostnamesTab.tsx: load, handleSubmit, handleDelete,
-- handleRowDrop and the callbacks of its controls, over the panel's state and that of the remote account
-- and tunnel. A handler runs to its end before the next starts; overlapping requests are left out.
--
-- Ingress/Globals is web/src/components/cf/TunnelConfigTab.tsx: load and save, cut at their `await`s as described
-- for Configs below.
--
-- Token is web/src/utils/cfToken.ts: the regular expression as a leftmost match with a greedy run.
--
-- Events is web/src/events. Events/Types has the event types of types.ts. Events/Registry has the
-- listeners of EventStreamContext.tsx, a map of sets in insertion order; a listener is the identity of
-- its function, and listeners are taken not to subscribe or unsubscribe during a dispatch.
-- Events/Connection has the WebSocket connection of `EventStreamProvider`: refs, state and the sockets
-- outside are one record, and every callback of the browser is a signal, so that a list of signals is
-- an arbitrary interleaving of socket events, timers, storage events, mounting and unmounting.
--
-- Logs is web/src/components/instance/InstanceLogPanel.tsx: levelClass, the keyword filter, the text that
-- is downloaded and `highlight`, whose pieces keep the text of a marked occurrence instead of its markup.
-- Logs/Stream has the panel's state and the handlers of its WebSocket, signals as in Events/Connection;
-- each run of the effect is numbered, and `closedByUs` of a run is whether a later run has begun. A
-- throwing WebSocket constructor and a frame that is not JSON are signals too.
--
-- Configs is web/src/pages/Configs.tsx. Configs/Hint has YAML_HINT, Configs/State the page's state, its
-- requests and the signals, Configs/Page the handlers: fetchConfigs, fetchStatus, handleStart, handleStop,
-- handleReload, handleDelete, openCreate, openEdit, handleSave, openDuplicate, handleDuplicate,
-- handleReorderDrop and persistOrder, each cut at its `await`: what comes before is one signal and what
-- comes behind is another, with what the closure had captured. Requests may thus be answered in any order.
-- The library `yaml` is the parameter `Yaml`, of which the theorems use that comments are no content, that
-- the empty mapping alone is printed as empty braces and that what was printed is read back.
--
-- Binding is web/src/components/instance/InstanceCFPanel.tsx: loadHostnames, load, refreshBinding, handleBind,
-- handleUnbind, handlePhSubmit, handleSyncDns, handlePhDelete and handleHostnameReorder, cut at their
-- `await`s like those of Configs. `Promise.all` is one signal, and the property `id` is part of the state,
-- since the panel is kept when another instance is selected.
--
-- Accounts is web/src/pages/CFAccounts.tsx: loadList, openCreate, openEdit, handleVerifyResult, submit,
-- confirmPick, handleVerify and handleDelete, cut in the same way. What `submit` and `handleVerify` hold
-- while they await the list is carried by the signal of its reply. Api/Reply is the reply to a request.
--
-- Alerts is web/src/pages/Alerts.tsx: fetchConfigs, loadRules, loadEvents, openCreate, openEdit, submit,
-- removeRule, toggleEnabled, instLabel and metricLabel, cut in the same way.
--
-- Records is web/src/components/cf/DNSRecordsTab.tsx: dnsCombine, dnsSplit, loadZones, loadRecords, openCreate,
-- openEdit, submit and handleDelete, cut in the same way.
--
-- Console is web/src/pages/CFConsole.tsx: loadAccounts, loadTunnels, handleCreate, handleRename and
-- handleDeleteTunnel, cut in the same way.
--
-- Fuel: the loop of toSeconds over the matches in a text has the length of the text, since every round
-- takes a unit off it, the loop of `highlight` has the length of the lower-cased text for the same reason, and
-- the polls of waitForRestart have one unit for each 2500 ms of the timeout and
-- one more, since every round sleeps that long. Every other loop goes over a list or a text.
--
-- Not modelled: the remaining pages, cards and tabs, which mostly show what they load or send a form as it is; the
-- catalogue of configuration keys and the theme; the dates, which go
-- through Intl; what is rendered; the Go daemon behind the API; the end-to-end tests.
pub mod Base
pub mod Api
pub mod Ingress
pub mod Token
pub mod Events
pub mod Logs
pub mod Binding
pub mod Configs
pub mod Accounts
pub mod Alerts
pub mod Records
pub mod Console
pub mod Updates
pub mod Login
pub mod Monitor
pub mod Instance
