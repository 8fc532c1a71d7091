-- ===== src/Lib.antt =====
-- LibreWave drives an Elgato Wave:3 microphone under Linux and mixes its audio. This library
-- models the parts of it that decide what is sent to the device, what a profile may say, and how
-- audio, controls and clocks pass between threads, and shows what they guarantee.
--
-- crates/librewave-protocol says what the device speaks. A message has an identity and a schema,
-- and only the reviewed identities are admitted (`admit`, `config_schema`). The complete
-- configuration is a payload of 16 bytes with a table of typed fields; the codec reads a field
-- (`decode_field`) and patches one (`patch_field`), and `Wave3Config` offers them as `get`, `set`,
-- `controls` and `apply_control`. A transfer is described by a USB setup packet
-- (`message_transfer`).
--
-- crates/librewave-device runs it over a transport. `probe_wave3` reads the API version and the
-- configuration and makes a session; `refresh_config` reads the configuration again;
-- `transact_control` reads, writes, reads back and, after a failure, restores.
--
-- crates/librewave-core holds the names, meter frames and device generations that the programs
-- exchange, and the mixer profile that the daemon saves: sources with their routes into the monitor
-- and the stream mix, the outputs, and rules that send applications to sources. A profile is
-- checked when it is read (`validate`) and changed by edits that each return a new profile.
--
-- crates/librewave-engine is the real-time mixer. Its configuration names at most twelve sources
-- (`MixerConfig`), a set of source controls is compiled against it, and the compiled controls pass
-- from the control thread to the audio thread through a slot that holds one of them at a time
-- (transfer.rs); meter frames take a slot of the same kind the other way. `ClockRateEstimator`
-- relates the clocks of a capture and a playback device from pairs of observations.
--
-- crates/librewave-platform-linux attaches a device to the host. `AudioLifecycle` brings the
-- virtual endpoints of a device up and tears them down, and recovers after a restart of the host or
-- a disconnection. `InputLayout` gives each input of a profile one of ten fixed slots of the
-- engine. The ring of audio_host/clock_bridge/spsc.rs carries blocks of frames from one real-time
-- thread to another.
--
-- crates/librewaved is the daemon. A client's change of one control becomes a change of the
-- protocol, a transaction carries it out, and what the transaction ends in becomes the outcome that
-- the client is told (control.rs).
--
-- Files:
--   Common                shared helpers: results, lists, integers, bytes, Boolean tests
--   Common/Search         searching and editing vectors as the standard library does
--   Protocol/Identity     identity.rs
--   Protocol/Fields       the field specifications of schema.rs and the field table of wave3.rs
--   Protocol/Schema       schema.rs: schemas and admission
--   Protocol/Codec        codec.rs: validate, decode_field, patch_field
--   Protocol/Wave3        wave3.rs: the typed values, the configuration and its controls
--   Protocol/Setup        setup.rs
--   Device/Transport      the two transport traits of session.rs and transaction.rs
--   Device/Configs        comparing and checking a complete configuration
--   Device/Session        lib.rs and session.rs
--   Device/Outcomes       the types of transaction.rs and transaction_setup
--   Device/Transaction    transaction.rs: transact_control and what it calls
--   Core/InputName        input_name.rs: which names are admitted
--   Core/Applications     applications.rs: the identities and rules that a profile saves
--   Core/DeviceGeneration device_generation.rs: the token of a device generation
--   Core/Meters           meters.rs: meter frames and their admission
--   Core/Controls         lib.rs: the portable view of a configuration, and a control change
--   Core/Mixer            mixer.rs: the profile and `validate`
--   Core/Mixer/Edits      mixer.rs: the edits of a profile
--   Core/Mixer/Defaults   mixer.rs: the first-run profile and `reset`
--   Engine/Handoff        transfer.rs: the slot of the compiled controls
--   Engine/MeterTransfer  meter_transfer.rs: the slot of the meter frames
--   Engine/Config         config.rs: the sources of the engine
--   Engine/Controls       transfer.rs: the controls of the sources and their compiled snapshot
--   Engine/Staging        transfer.rs: try_prepare, try_stage and take, each taken alone
--   Engine/Clock          rate_estimation.rs: the types, the configuration and the arithmetic
--   Engine/Clock/Preview  rate_estimation.rs: `preview`, `commit` and `reset`
--   Platform/Candidate    lib.rs and librewave-core/src/lib.rs: the device and its endpoints
--   Platform/Lifecycle    audio_lifecycle.rs: the state, the teardown and the failures
--   Platform/Lifecycle/Start  audio_lifecycle.rs: `start`, recovery and disconnection
--   Platform/Snapshot     usb.rs: wave3_config_snapshot
--   Platform/Inputs       audio_host/input_layout.rs: the slots of the inputs in the graph
--   Platform/Ring         spsc.rs: the ring, the admission of a push and of a read
--   Platform/Ring/Blocks  spsc.rs: blocks of frames, and copying them in and out of the slots
--   Platform/Ring/Spec    the queue that the ring is to implement
--   Platform/Ring/System  the ring and its two sides, one shared access at a time
--   Daemon/Control        librewaved's control.rs: apply, transaction_outcome
-- The modules below these hold the theorems about them; Tests hold concrete inputs.
--
-- Correspondence. A `u8`, a `u16` and a `usize` are numbers, an `i32` an integer; a payload is a
-- list of numbers. An `InputName` is the text that it stores. A function that changes its `&mut`
-- argument returns the new value beside its result. A `&'static MessageSchema` is a `SchemaRef`:
-- the code compares addresses, so a reference is one of the static schemas or a copy. An early
-- return through `?` is the bind of `Result`. The transport is a parameter, a record of the two
-- calls over a state of its own: nothing is assumed of it but what a theorem names, that a call
-- keeps the length of its buffer and leaves bytes there (`KeepsBuffer`, which the type `&mut [u8]`
-- guarantees), or that it stores what it is sent (`Stores`). The host of the audio lifecycle and
-- the gate of a device are parameters of the same kind, over a world that both act on. Floating
-- point operations, the power of ten, and whether an allocation succeeds are parameters too. Two
-- threads are an explicit sequence of actions, each with at most one access to what they share: the
-- acquire and release orderings of the code make a value that is written before such an access
-- visible after it. A prepared push or read is a pending value of its side, which is either
-- committed or dropped; a drop changes nothing of a ring, and gives back a slot of the engine. All
-- functions are structurally recursive; only the decimal digits of a `u64` take fuel, 19 for the 20
-- digits that it has at most. A string is the list of its scalar values, and in
-- Core/DeviceGeneration of its bytes. A `usize` and a `u64` have 64 bits. The code adds and
-- multiplies them with `checked_add` and `checked_mul`, which the model writes out with the bound,
-- so no wrap-around comes up. A profile that is edited is a value, since each edit clones it first.
--
-- Not modelled: the Display and Error texts, serde, conversions of faders to and from `f32`; of
-- librewave-core the runtime snapshots; of the engine the mixing, the meters' ballistics and the
-- rate matching, which are floating point arithmetic; of the Linux platform code the USB transfers,
-- the PipeWire graph and the state of the clock bridge around its rings; the rest of the daemon,
-- the socket protocol, the command line tool and the user interface.
pub mod Common
pub mod Protocol
pub mod Device
pub mod Core
pub mod Engine
pub mod Platform
pub mod Daemon
