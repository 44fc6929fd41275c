-- ===== src/Lib.antt =====
-- Verification of the ThreatLens dashboard, the TypeScript client under frontend/src, and of the parts
-- of its service that keep what the dashboard shows and changes.
--
-- The program. ThreatLens detects attacks in network traffic. Its backend (Python) classifies
-- flows and pushes alerts over a WebSocket; the dashboard (React, TypeScript) keeps a buffer of
-- them, filters and groups them, draws throughput and trends, and edits the detection settings.
-- The development is about the dashboard's own logic, in which what the backend answers is an
-- argument of the operations; and about the archive of alerts, the suppression rules, the incidents
-- and the thresholds of the backend, whose answers are put in for these arguments where both sides
-- meet.
--
-- How code becomes definitions. The state of a component or hook is a record; an event handler,
-- an effect, a timeout or a state updater is a function on it. An asynchronous handler is cut at
-- its `await`s: one function up to the request (it ends in `_started`, or has the handler's own
-- name), one for what runs on the answer (`_answered`), whose argument has a case for each kind
-- of answer, a thrown exception included. Requests that go out are listed in the state. Where the
-- order of events matters, a data type `Reach` of reachable worlds lets them happen in any order
-- that the browser and React allow (`Enabled`).
--
-- What a component renders is a function too: of its state, to the texts that it shows, the values
-- and attributes of its fields, and which of its buttons are there, disabled or marked.
--
-- The files, each with the children of the same name:
--   Base        lists, texts, sets, tables and Boolean tests on native numbers; no code.
--   Types       types/threat.ts and lib/threatMapping.ts: the data contracts, `getAlertIdentity`,
--               `normalizeThreatClass`, `matchesThreatClass`, the short display names.
--   Socket      hooks/useThreatSocket.ts: `connect` and the callbacks of the WebSocket, the
--               cleanup, hydration, clearing, status updates, the address. Steps has the
--               relation `Reach` over every event; Connection, Buffer and Backoff its invariants;
--               Recovery the way back to a connection; Store the table of alerts that the buffer
--               implements.
--   Table       components/ThreatTable.tsx: the predicate of `filteredAlerts` (Filter), the bar
--               above the table (Toolbar), pausing (Pause), highlighting new rows (Fresh), the
--               body and its messages (Body), a row's texts and colours (View), tags, addresses
--               and pages (Row), the status menu and the keys of a row (Menu).
--   Dashboard   App.tsx and lib/devState.ts: severity filters, archive paging (Archive), the
--               dominant vector (TopVector, Dominant), the critical pulse (Pulse).
--   App         App.tsx, where the components meet: the screen and the band of a lost connection,
--               the cards (Cards), a change of status from the menu to the rows (StatusChange),
--               and the menu of components/Navbar.tsx with what a user may do (Rights).
--   Session     components/LoginPage.tsx and the session in App.tsx: the fields and buttons of the
--               form (Form), its requests under any events (Sending), signing in and out (Laws),
--               its scrolling log (Logs, LogLine), the notice of an expired session and booting
--               (Notice).
--   Throughput  components/ThroughputGauge.tsx: polling, history, downsampling, scale; the cards,
--               the tooltip and the chart (Screen).
--   Trends      components/ThreatTrends.tsx: the cache, the slices of the chart, the axis; the
--               lines and the tooltip (Screen).
--   Detection   components/DetectionConfig.tsx: thresholds and suppression rules, and what their
--               tabs show (Screen, RuleScreen).
--   Replay      components/ReplayModal.tsx: starting, polling, uploading, sizes, and what the
--               modal shows (Screen).
--   Incidents   components/IncidentsPanel.tsx: addresses, the suppression dialog, stored state,
--               and the rows (Rows).
--   Navbar      components/Navbar.tsx: finding an idle stream.
--   Forensics   components/ForensicDrawer.tsx: the class's evidence, latencies, notes, copying;
--               the parts of the drawer (Dossier, Frame) and their copy buttons (Copies).
--   Interface   components/ui/tabs.tsx, sheet.tsx and tooltip.tsx, and lib/utils.ts; Locking has the
--               sheets in any order of events.
--   Display     components/AnimatedNumber.tsx, SystemHealthPanel.tsx, LoginModal.tsx and
--               lib/motion.ts.
--   Server      the service. Archive has backend/app/storage.py with the routes on it, Suppression
--               the rules of engine/runtime_config.py and engine/pipeline.py, Routes their routes
--               and validators in backend/app, Correlation the incidents of
--               engine/models/aggregator.py, Incidents the route that groups alerts (Grouping,
--               Overview), Thresholds what engine/config.py takes for a threshold, Changes how it
--               is changed, Bounds what holds of it, Resaving a row of the form that is saved as it
--               is. Where the client meets it: Pages the pages of the archive, Agree and Agreement
--               what both sides show of an alert, one exchange after the other, Exchanges the same
--               where they cross, Keeping how long a rule stays, Silence and Undoing a rule from
--               the panel's button to the alert that is withheld.
--
-- How they interact. Socket pushes alerts into the buffer that App passes to Table, Dashboard and
-- Trends; Table and Socket tell alerts apart by the identity of Types, and Table, Trends and
-- Forensics read an alert's class through the matching of Types. Dashboard sets two of the filters
-- of Table, and its cards count what Table would show. App passes a change of status from the menu
-- of a row to the request and back to the buffer, and gives the user's role its actions. Session,
-- Replay, Incidents and Detection talk to the backend on their own. The service records each alert in
-- its ring, marks it with the rules in force, and sends it to the consoles unless it is marked; the
-- console hydrates from the ring and pages through it.
--
-- Representation. A text is a list of character codes; case folding and trimming are those of
-- ASCII. Numbers are natural: a confidence counts ten-thousandths, a latency thousandths of a
-- millisecond, a time whole milliseconds, so that the comparisons of the source become exact ones.
-- A subtraction that could be negative in the source is written as a distance or guarded. An
-- identifier of a socket, a timeout or a request is a number that is drawn once. `Set` and objects
-- used as tables are lists in insertion order. `Date.parse`, `Date.now`, `JSON.parse`,
-- `JSON.stringify`, `Number(s)`, `String(n)` and `toISOString` are parameters; a theorem that
-- relies on one says in its hypotheses what it relies on. So are ClickHouse (whether it is reached,
-- whether it takes a row, its answers), Redis, `ipaddress`, the UUIDs and the points in time that
-- datetimes name. A body in JSON and the model object of the service are one record.
--
-- Bounds and fuel. The bounds are the source's: 200 alerts in the buffer, delays from 1 to 15
-- seconds, 43200 points of history, 180 stored, six hours of cache, 50 rows of a page. No
-- definition runs on fuel: each loop of the source goes over a list or a text, and is structural
-- recursion. The polls of a replay have no bound of their own; they are taken over a list of
-- ticks and answers.
--
-- Not modelled: class names, icons, layout and animations, the drawing of the charts (recharts), and
-- how a float is printed, which is a parameter (except where the division is exact); the fixed texts
-- of headings that depend on nothing; React itself, of which is used that an effect's cleanup runs
-- before its next run; of the service its accounts and tokens, its broadcast to many consoles, its
-- replay jobs, trends and exports, what Redis holds of the thresholds, the detectors, which compute
-- with floats, and the ingest, which reads captures and Kafka.
pub mod App
pub mod Base
pub mod Dashboard
pub mod Detection
pub mod Display
pub mod Forensics
pub mod Incidents
pub mod Interface
pub mod Navbar
pub mod Replay
pub mod Server
pub mod Session
pub mod Socket
pub mod Table
pub mod Throughput
pub mod Trends
pub mod Types
