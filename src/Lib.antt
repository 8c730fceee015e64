-- ===== src/Lib.antt =====
-- FiremeX: cameras whose frames a detector looks at for fire and smoke, an engine for each camera that
-- turns detections into incidents, and a dispatcher that calls people until one acknowledges.
--
-- The path of a frame: a camera's worker (firemex/ingest/worker.py) decodes a stream into its buffer
-- (firemex/ingest/ringbuffer.py) and offers samples, through a bounded queue, to the inference service
-- (firemex/detect/service.py). The result goes to the camera's incident engine
-- (firemex/incident/engine.py), which drops detections by threshold, area and exclusion zone
-- (firemex/incident/zones.py) and opens, escalates or closes an incident. An opened incident starts an
-- escalation run (firemex/notify/dispatcher.py) over the contacts that the configuration
-- (firemex/config.py) gives; acknowledgements and cooldowns stand in firemex/notify/base.py. Operators
-- act through an API that checks their session and role (firemex/auth.py, firemex/store.py,
-- firemex/api/deps.py, firemex/api/routes_auth.py, firemex/api/routes_users.py) and edit the
-- configuration (firemex/api/routes_config.py).
--
-- Which file models which part:
--   Base      tests, lists, bounded queues, dictionaries, fractions that the parts share
--   Detect    Geometry, Frames and Labels: firemex/detect/base.py (BBox, iou, Detection, FrameResult,
--             canonical_label); Service: InferenceService, its task as a state machine and its futures
--             as a dictionary; Onnx: firemex/detect/onnx_backend.py, with nms in Suppression, letterbox
--             in Letterbox, _decode and _decode_end2end in Cells and Decode, predict in Predict; Stub and
--             Regions: firemex/detect/stub.py, with _grid_regions in Regions
--   Config    Types, Confirm, Site, Night: the records of firemex/config.py, ConfirmConfig._check,
--             SiteConfig._check_references and escalation_chain, CameraConfig.is_night; Stored:
--             dump_site_config and load_site_config with the file between them
--   Incident  Zones: firemex/incident/zones.py; Types, Area, Rules, Engine: the values, the union area
--             and clusters, the rules and CameraIncidentEngine (observe is `observe`, _open is
--             `open_incident`, _close is `close_incident`); Fleet: IncidentEngine
--   Notify    Acks and Cooldown: AckBus and CooldownStore; Dispatch: AlertDispatcher, its tables in
--             Table, one run with `run`, `execute`, `try_contact` for run, _execute, _try_contact;
--             Records: what Store._record_run writes of a run
--   Ingest    RingBuffer: FrameRingBuffer; State and Worker: CameraWorker, its methods as steps
--   Accounts  Text, Roles, Users, Sessions, Access: roles, the user and session tables of
--             firemex/store.py, the access checks and the user administration routes; Login:
--             firemex/api/routes_auth.py; Registration: create_user and unlock_user; Passwords and
--             Redaction: hash_password, verify_password and redact_url of firemex/auth.py
--   Supervisor  of firemex/supervisor.py: cancel_incident, acknowledge_incident, _handle_event,
--             _handle_result (Results); Settings:
--             Settings, detector_settings, shadow_mode and build_detector (firemex/detect/registry.py);
--             Pipeline: start, reload_config, _restart_inference, healthy; Bus: firemex/events.py;
--             Routes: firemex/api/routes_config.py
--   Examples  the models run at concrete inputs
--
-- How the program is rendered. A method takes the object's state and returns the new one; an exception
-- is `none` or a constructor of its own. Identifiers and opaque texts are numbers, times are whole ticks,
-- coordinates and confidences are whole numbers of one unit, and a quotient that the program computes in
-- floating point is a pair of numbers that is compared exactly; only where detections are decoded is it
-- rounded down to the unit. A coroutine of
-- the dispatcher is a function on a world: at each await a script says what other tasks do to the bus, or
-- that the task is cancelled. The worker's thread and tasks are steps on one state, in any order. Loops
-- are structural recursion over a list or a counter of attempts; two run on fuel that is proved to be
-- enough: nms with one round for each box and one more, and the flood of _grid_regions with one round for
-- each cell of the grid and one more.
--
-- Parameters, not definitions: the detector's answers, the providers of calls and texts, the clock,
-- scrypt and base64, password hashing and verification where a route only
-- calls them, random ids and tokens, the ids that the database gives, numpy's
-- argsort and isclose, Pillow's resampling, the network's outputs, pydantic's constraints, dumping and
-- validation of one model, how a write of the file ends, and whether weights are there, load and start.
--
-- Where the model is narrower than the program: texts are lowered as ASCII is; scores and coordinates of
-- the network's output are finite numbers, which a class id need not be; an image has pixels, so no
-- scale is zero; the watchdog's look at the time of the last frame is one step; the dispatcher's site and
-- alerting switch do not change during a run; and a session lasts the twelve hours of
-- firemex/api/routes_auth.py, which does not read the setting for it.
--
-- Not modelled: metrics and logs, the backend of ultralytics, video and file I/O, Twilio and webhooks,
-- the other HTTP routes, the supervisor's stop and status, the command line and the dashboard.
pub mod Base
pub mod Detect
pub mod Config
pub mod Incident
pub mod Notify
pub mod Ingest
pub mod Accounts
pub mod Supervisor
mod Examples
