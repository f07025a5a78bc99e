-- ===== src/Lib.antt =====
-- SH-FMS, the monitoring of a factory's plant: pages of a browser show tags, alarms, video and
-- trends and let operators acknowledge and shelve alarms; a gateway takes the values of the tags,
-- raises alarms from them and serves both to the pages.
--
-- The pages work without the gateway: each is framed by assets/js/shell.js, which asks
-- assets/js/auth.js who is logged in, and shows data that assets/js/mock.js makes from a random
-- generator of its own and moves on with each tick. login.html logs in through auth.js. The alarm
-- page, app/alarm.html, changes the alarms of mock.js, and the frame and the alarm page count them.
-- The gateway, src/SHFms.Server, has its own alarms, in the alarm engine.
--
-- The files and what of the source they model:
-- - Auth: assets/js/auth.js. The tab, with what it stores and where it goes, is `Browser`; login,
--   current, base, logout, guard and can_operate are the functions of those names (canOperate).
--   Children: Login, what a login lets in; Access, what a session allows.
-- - LoginPage: login.html, the handler of its form.
-- - Mock: assets/js/mock.js. Random is rnd() with the rounding of a double's 53 bits written out,
--   and its children give its range, its period and where it is exact; Format is pad, hhmm, hms
--   and ymd; Tags is TAGS and tagState; Cameras and Plant are the tables; Alarms is alarms() and
--   alarmLoad(), Simulator is step(), start() and onTick() with listeners that may change the
--   tags, Trend is history(), Energy is energy().
-- - AlarmPage: app/alarm.html. The handlers of its buttons are `click`, a visit is a list of tabs
--   and clicks; Table is kpis() and render(). Handlers, Unique and Views have what they keep.
-- - Shell: assets/js/shell.js, the build of the frame, with what it shows as `Screen`.
-- - Cctv: assets/js/cctv.js. attach, clear and loop with the browser's requests for frames and the
--   canvases that containers hold; SCENES is `scenes`. Painting is drawScene and Overlay drawOsd, as
--   the calls that they make on a canvas, whose context is Context; Frames has what the viewer keeps,
--   Figures, Words and Pictures what a frame paints.
-- - CctvPage: app/cctv.html, its selects, wall, list, sequence and panel with its commands and
--   note. Wall has what is seen after the wall is drawn, Ids and Known which cameras it names,
--   Visits what a whole visit keeps.
-- - Chart: assets/js/chart.js, line(), niceMax(), bars() and spark() as lists of what is drawn, and
--   in Round donut() and gauge(). Slices, Lines, Labels and Columns have what they keep.
-- - Engine: src/SHFms.Server/Services/AlarmEngine.cs with Models/AlarmModels.cs and TagModels.cs.
--   Classify has Classify, PriorityOf and Describe, and StateOf of Services/TagStore.cs; Store has
--   the dictionary, the bounded history and the suppressed keys; Evaluate has Evaluate, TryClear and
--   ExpireShelves; Operate has Ack, Shelve and Load, and sequences of calls. The children named
--   Laws, Keys, Invariant, Repeat, Return, Suppressed and Bounds have what they keep.
-- - Historian: src/SHFms.Server/Services/Historian.cs, the ring of arrays of a tag and Query. Ring
--   and Refine have what the ring keeps and which list it stands for, Index where a sample's index
--   lies, Query what an answer holds.
-- - Gateway: src/SHFms.Server/Services/TagStore.cs and the handlers of Program.cs that change state,
--   over the store, the engine and the historian together. Current and Answers have what they keep.
-- - Collector: src/collector. Store is src/tag_store.cpp, Uploader src/uploader.cpp, Scan the
--   loop of src/main.cpp with its backoff, Modbus and Xgt read_block of src/modbus_tcp.cpp and
--   src/ls_xgt.cpp, Config the tokens of the parser of src/config.cpp and Settings the rest of
--   it. The children named Deadband, Names, Taking, Recovery, Backlog, Devices, Receive,
--   Roundtrip, Reads, Skips, Lengths, Loops and Validity have what they keep.
-- - Js and Number: strings and doubles as the pages use them; Prelude: shared helpers.
-- - Examples: runs at concrete inputs.
--
-- Parameters. Auth.Platform is JSON.stringify and JSON.parse with the case mapping outside ASCII;
-- what a theorem asks of it is a hypothesis, which Examples.Json meets. Number is the doubles
-- with their operations, as far as the code computes, compares and prints them;
-- Examples.Thousandths counts in thousandths. Chart.Decades has the logarithm of niceMax(),
-- Chart.Round.Trig pi, sine and cosine. The time zone and the clock are arguments.
-- Cctv.Context.Maths is what the drawings take from Math and the canvas. Engine.Runtime is the
-- case folding and the formats of .NET. Historian takes C#'s cast of a double to int; what a theorem
-- asks of it and of the rounding of doubles is Historian.Index.IsRounded. Gateway takes the
-- runtime's test of white space, Collector.Config that of C++ and strtod, Collector.Store the reading
-- of 32 bits as a float.
-- Whether a device connects, which bytes arrive before its time limit and whether a post is
-- confirmed are inputs.
--
-- Bounds and fuel. The loops of the source go over lists or count down, and the functions are
-- structural on them. The loops of the configuration's parser have as many turns as the text that
-- is left has characters, and one; each takes some away. Two helpers have fuel: ulp_from of
-- Mock.Random doubles a unit eleven times at most, enough for the products of the generator,
-- which are below 2^62 (2^53 * 2^11 is above); decimal_from of Js.Decimal has more steps than its
-- number, so than digits. Seeds are below 2^31, and products of the generator are rounded to 53
-- bits; counts, times and ticks are natural numbers, below 2^53 in use. The sequence number of
-- the engine is 64 bits wide in the source, which no run fills. A shelf is asked for a time that
-- is not negative, as Program.cs sees to. The engine changes its alarms in place; the model puts
-- the changed one under its tag, where it was found. Its history shares those objects, and the
-- model keeps of them there what is set once and for all. A ring holds 21600 points, and the
-- queue of the uploader 50000 values. Bytes and registers are natural numbers, which the
-- collector's code puts together and cuts as written. Reads of the clock in a batch are the
-- instants that come with its values.
--
-- Not modelled: pixels and markup, what the timeline of the video page shows, and the other
-- pages, which only display; the routes of the gateway that only display, its configuration and
-- the groups of its hub; the collector's sockets, its logs and the pacing of its loop. Calls of
-- the engine that overlap in time are not interleaved: each is taken as one step. The order in
-- which the collector takes changed values is that of a hash map, which its source leaves open;
-- here it is the order of registration.
pub mod Prelude
pub mod Js
pub mod Number
pub mod Auth
pub mod LoginPage
pub mod Mock
pub mod AlarmPage
pub mod Shell
pub mod Cctv
pub mod Chart
pub mod Engine
pub mod Examples
pub mod Historian
pub mod Gateway
pub mod Collector
pub mod CctvPage
