-- ===== src/Lib.antt =====
-- Open WebBridge: a verification library of the browser extension (open-webbridge-extension).
--
-- The extension is a service worker that a local daemon drives over one WebSocket. ws-client.js
-- keeps that link and hands each tool call to a tool; the tools work on named sessions of tabs
-- (sessions.js), through the debugger (cdp.js), and within the daemon's caps on tabs
-- (tablimit.js). Beside them, a person can pin comments to elements of a page; the annotation
-- store keeps those for the agent to read. What each file models:
--
-- - Base: what JavaScript gives: texts as lists of code units, maps and sets in insertion order,
--   arrays, a stable sort, decimal numerals, tests, and results that may be thrown.
-- - TabLimit (open-webbridge-extension/src/tablimit.js): hostOf, domainMatches, rulesToCheck and
--   assertDomainTabLimits are host_of, domain_matches, rules_to_check and
--   assert_domain_tab_limits.
-- - Annotations.Record and Annotations.Model (open-webbridge-extension/src/annotations/model.js):
--   the record of an annotation, makeRecord, filterAnnotations, pruneItems, shotIdsToKeep, stats
--   and clampWait, each under its name with underscores.
-- - Annotations.Store (open-webbridge-extension/src/annotations/store.js): the cache, the storage
--   and every operation on them. The flags of an operation say which of its writes succeed.
--   Annotations.Store.Wait is waitForNew.
-- - Mode (open-webbridge-extension/src/annotations/mode.js): which tabs are in annotation mode.
-- - Network, Dialogs and Snapshot (network.js, dialogs.js and snapshot.js of
--   open-webbridge-extension/src/tools): the listeners and the tools.
-- - Cookies (open-webbridge-extension/src/tools/cookies.js) and Dispatch
--   (open-webbridge-extension/src/dispatcher.js): the export of cookies and the table of tools.
-- - Refs (open-webbridge-extension/src/refs.js): the references that a snapshot hands out.
-- - Cdp (open-webbridge-extension/src/cdp.js): to which targets the debugger is attached and which
--   domains are marked as enabled. The answers of the debugger, and the targets that are detached
--   from outside while a call is awaited, are arguments.
-- - WsClient (open-webbridge-extension/src/ws-client.js): the link, cut at its awaits, so that a
--   list of events is an interleaving. WsClient.Probe is testConnection.
-- - Sessions (open-webbridge-extension/src/sessions.js): the state and the bookkeeping; Groups is
--   reconcile and the titles, Closing the closing of tabs, sessions and groups, Opening
--   acquireTabForNavigation with the caps. They use Refs, Cdp and TabLimit the way the source
--   does. The browser is a record of operations, `Browser W`, on a state that is left open.
-- - Tools (open-webbridge-extension/src/tools/interact.js and snapshot.js): what a tool does to a
--   page through the debugger. Page has the commands and the errors, Elements the resolution of
--   selectors and references, Interact and Input the tools, Outline the snapshot. Reading (evaluate.js,
--   frames.js, capture.js), Emulate (emulate.js) and Downloads (downloads.js) are the other tools on a
--   page. A tool is a function on the extension's state and the log of the commands that were sent.
-- - Annotate (open-webbridge-extension/src/tools/annotate.js and mode.js): the two annotation tools
--   (Args, Operations, Tool) and the messages of the annotator in a page (Pages), on Annotations.Store
--   and Mode.
-- - Tabs (open-webbridge-extension/src/tools/tabs.js): the tools on tabs and sessions, on Sessions.
-- - Worker (open-webbridge-extension/src/background.js): the listeners, on the state of the whole
--   extension.
--
-- What is outside is a parameter: the URL parser of the platform (`host_name`, `strip_hash`), the
-- numbers that are not integers (`Float`), the clock and the timer of waitForNew, the debugger's
-- answers, the browser, and whether a read of storage or a write to it succeeds. ws-client.js is cut
-- at its awaits, and cdp.js and waitForNew take what happens during a wait as an argument; any other
-- operation is one step.
--
-- Simplifications. `to_lower` changes the letters A to Z, and U+0130, which becomes two units;
-- texts in other scripts are compared as they are. An attach of the debugger, and the commands that
-- enable a domain, are always answered; any other command may be left without an answer. A cap or a
-- limit is a whole number, 0 where the source has none or one that is not positive. Identifiers of
-- tabs and groups are natural numbers. A record that the source changes in place is found again by
-- its id.
--
-- Recursion. All loops are structural but four. waitForNew runs on fuel for its rounds: a wait of
-- w milliseconds takes w / 250 + 2 at most, since every pause but the last is at least 250 long.
-- The wait of navigate takes at most 202 rounds of 150 milliseconds for its 30 seconds.
-- A decimal numeral of n has fuel n + 1, more than its digits. The walk of a snapshot has fuel for
-- its depth (Snapshot.Fuel).
--
-- Not modelled: the popup, the page annotator, the functions that tools run in a page, the image of
-- an element (captureElement), the order of cookies by locale and the call that reads them. An
-- operation on sessions and a tool on tabs are one step each: the source takes the mutation lock of
-- sessions.js only for navigate, find_tab and activate_tab, only while caps are set; close_tab,
-- close_session and close_group never take it, so calls that overlap at an await are left out.
pub mod Base
pub mod TabLimit
pub mod Annotations
pub mod Network
pub mod Dialogs
pub mod Cdp
pub mod WsClient
pub mod Refs
pub mod Sessions
pub mod Mode
pub mod Snapshot
pub mod Cookies
pub mod Dispatch
pub mod Tools
pub mod Annotate
pub mod Tabs
pub mod Worker
