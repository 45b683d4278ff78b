-- ===== src/Lib.antt =====
-- The WebXR front end of the repository, apps/frontend-webxr/src: a player starts a session with a
-- master service, sees its pods on a board, and reports to the service the pods that were hit.
--
-- The parts and where they are:
-- Types: types.ts. Numbers that the service sends as 32-bit integers are natural numbers.
-- Store and Store/Pods: store.ts, `GameStore`, `getPods`, `getEffectiveCounts`. `podsById` is an
--   association list in the order of insertion; ids are taken not to be array indices nor names of
--   `Object.prototype`. Listeners are numbers, and their calls are recorded. `localeCompare` is a
--   parameter (`Collation`), with its documented laws in `IsCollation`.
-- View, View/Markup, View/Page: main.ts, the store's listener and the markup it renders, as texts
--   of UTF-16 code units. What the page shows is a record. `toLocaleTimeString` is a parameter.
-- View/Peek: main.ts, the gopher that peeks beside the element under the pointer.
-- Session and Session/Start, Sockets, Report, Events: main.ts, `startSession`, `openSocket`,
--   `disconnectSession`, `reportPodGone`, `scheduleMetricsRefresh`, `enterXRMode`; and `closeSessionSocket`
--   and `sendPodStateUpdate` of api.ts. An asynchronous function is cut at each `await`: its rest is a
--   task, and an event resumes it. A history is a list of events in any order at all.
-- Api: api.ts, the addresses, `requestJSON` and `waitForSessionSnapshot`. What `fetch` settles with
--   is a parameter.
-- Scene, Scene/Grabs, Scene/Pods, Scene/Calls: scene.ts, the bodies of the pods, the hands, grabs,
--   crushing, palm contacts, and the removal of a pod. Scene/Grabs/Holds and Steps: what the hands
--   hold, as a machine with a step for each call. Scene/Calls/Apart: what the hands do between two
--   gusts. Floating-point numbers, quaternions and what the physics engine answers are
--   parameters (`Numbers`, `Reading`, `Frame`); what a body is told is a list of calls.
-- Scene/Gusts, Scene/Gusts/Triggers: scene.ts, `launchGust`, `advanceGusts`, `applyGustToPod`,
--   `removeGust`, `clearGusts` and `tryTriggerHandGust`. A gust is known by the handle of its collider.
-- Scene/Simulation: scene.ts, `updateSimulation`. The calls of `onHit` and `onPodFall` are listed in the
--   scene. In the source the page acts inside the call, and may remove bodies before the loop over
--   them ends; here what it does to the scene is a later call. Scene/Simulation/Told: which crushes
--   end and which pods fall in a frame, apart from the loops.
-- Scene/Meshes, Scene/Update: scene.ts, `update`, `createPodMesh`, `spawnPod`, `recyclePodEntry`,
--   `reset`, and the highlights. A change of the desktop's target sets no highlight before the next
--   `update`.
-- Scene/Desktop, Scene/Desktop/Keys: scene.ts, what the pointer aims at, its click, the keys, the
--   pointer lock, the camera's turn and movement, and the desktop's gust.
-- Scene/Hands, Scene/Hands/Sampling, Scene/Hands/Pointing: scene.ts, `updateHandPhysicsFromJoints`,
--   `ensureHandPhysics` and `findPointingTarget`. A joint without a pose is read as missing.
-- Scene/Anchors: scene.ts, `createBoardAnchor`, cut at its `await`, and `clearBoardAnchor`.
-- Scene/Gpu: scene.ts, `recordFrameStats`, `resetFrameStats` and the queries of the GPU's timer.
-- Scene/Xr and Scene/Xr/Moves, Sliders, Sources, Frames, Ends, Lifecycle: scene.ts, `renderFrame`,
--   `updateWristHud`, the move of the table and the slider of its height, the ways into XR and out of
--   it, `initializePhysics` past its `await`, and `dispose`. Whether the renderer presents is a flag that changes by an event of its own. What a frame
--   reads of the session, of three.js and of the engine stands in a record (`XrFrame`, `PageFrame`);
--   the times and random numbers of its calls may differ. A history (Scene/Xr/Histories) has frames, the
--   page's calls and the desktop's inputs in any order.
-- Scene/Hud, Scene/Hud/Debug: the HUD's texts and when it is drawn; `JSON.stringify` and the texts of
--   numbers are parameters. The HUD's calls in the methods of Scene/Xr stand in histories of their
--   own. In `formatHudId` the product with 0.65 is that of the fraction, which has the same integral
--   part for the limits in use.
-- Board: main.ts, what the store's listener hands to `scene.update`, with both sides of the call.
--
-- They interact as in the source: the session holds the store and calls its operations, each of which
-- calls the listener, which renders the page. What the scene is told by the session is a list of
-- effects; what the scene calls back are events of the session.
--
-- Bounds and fuel: the log's eight entries and the forty attempts are those of the source. `decimal`
-- has more fuel than its number has digits. `read_html` takes fuel, and its theorem gives enough.
--
-- Not modelled: the DOM and the page's template, three.js and Rapier, the geometry
-- and materials of meshes but for what changes, the constructor of the scene, the request for a
-- session, and the drawing of the HUD on a canvas in scene.ts, and the services in Go.
-- JSON values are trusted to have the declared types, as the source's casts do.
pub mod Base
pub mod Types
pub mod Store
pub mod View
pub mod Session
pub mod Api
pub mod Scene
pub mod Board
