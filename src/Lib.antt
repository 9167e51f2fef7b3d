-- ===== src/Lib.antt =====
-- SoapySDRPlay3: a SoapySDR driver for SDRplay receivers. The driver runs in the process of the
-- application, or as a proxy (SoapySDRPlayProxy.cpp) that starts a worker (SoapySDRPlayWorker.cpp) for
-- each device. The two talk over a pair of pipes (IPCPipe.cpp), one message at a time, and the worker
-- hands samples to the proxy through a ring in shared memory (RingBuffer.cpp). In the driver, the API's
-- callback fills a queue of buffers that `readStream` empties (Streaming.cpp), and a watchdog looks for a
-- stream whose callbacks have stopped (HealthMonitor.cpp).
--
-- What is modelled, and where:
--   Ring          RingBuffer.hpp, RingBuffer.cpp: the header, `write`, `writeCS16`, `read`, `getReadPtr`,
--                 `advanceRead`, the flags. Indices are `uint64_t` with the wrap written out.
--     Ring.Copy     the two copies around the end of the array
--     Ring.Fifo     the ring against a queue
--     Ring.Chunks   `writeCS16`
--     Ring.Reading  `read` with its timeout, `getReadPtr` and `advanceRead`
--     Ring.Spsc     the worker's `write` and the proxy's `read` as steps of two processes; its
--                   children have the invariant (Sound), each side's steps (Producing, Consuming)
--                   and what follows (Delivery)
--   Ipc           IPCPipe.hpp, IPCPipe.cpp
--     Ipc.Bytes     little-endian words and blocks
--     Ipc.Params    `std::map` of strings, as a list in the order of the keys
--     Ipc.Numeric   the numeric parameters of a message
--     Ipc.Message   `IPCMessage`: `setParam`, `getParam`, `serialize`, `deserialize`
--     Ipc.Pipe      `IPCPipe`: `readExact`, `writeExact`, `send`, `receive`, `hasData`, `close`
--   Device        SoapySDRPlay.hpp: the members that the setters share, and `executeApiUpdate`
--   SampleRate    SampleRate.cpp: rates, decimation, bandwidths
--     SampleRate.Rates      the rates that are accepted
--     SampleRate.Plans      what an accepted rate's plan is
--     SampleRate.Updates    the assignments of `setSampleRate`
--     SampleRate.Reports    what `getSampleRate` makes of a plan's settings
--     SampleRate.Setting    `setSampleRate` against `getSampleRate`
--     SampleRate.Consistency  `setSampleRate` and the decimation switch
--     SampleRate.Bandwidth  the bandwidth of a rate
--   Gain          Gain.cpp: the LNA tables, the overall gain, the gain elements, the gain mode
--     Gain.Tables   what the tables have in common
--     Gain.Search   the loop of `setGain`
--     Gain.Total    `setGain` against `getGain`
--   Frequency     Frequency.cpp: `setFrequency`, `getFrequency`, the ranges
--     Frequency.RoundTrip  what is set and reported
--   ApiLock       SDRplayLock.cpp: the lock file that processes take turns by
--     ApiLock.Exclusion  the locks of several processes as steps
--     ApiLock.Waiting    `acquire` round by round
--   Streaming     Streaming.cpp: `rx_callback`, `acquireReadBuffer`, `releaseReadBuffer`, `readStream`
--     Streaming.Slots     a ring of buffers read from a position on
--     Streaming.Queue     the buffers against a queue of elements
--     Streaming.Callback  what the callback adds; its child Filling has the copy of the samples
--     Streaming.Reading   what `readStream` takes; its children have the copy of the
--                         samples (Current) and the giving back of a buffer (Release)
--     Streaming.Overflow  a full queue, in the callback and in the reader
--     Streaming.Delivery  the callback and `readStream` as steps in any order
--     Streaming.Events    `ev_callback`; its child Removal has the reads after a removal
--   Lifecycle     Streaming.cpp: `setupStream`, `activateStream`, `deactivateStream`, `closeStream`
--     Lifecycle.Counting  the counts of the two slots
--     Lifecycle.Closings  how often a stream is to be closed
--     Lifecycle.Ready     what `setupStream` gives
--   Selection     DeviceControl.cpp: the loop of `selectDevice`, the map of selected devices
--     Selection.Retries   how long the loop retries
--     Selection.Entries   the entries of the map, through each operation
--     Selection.Registry  constructors and destructors as steps
--     Selection.Modes     the modes and antennas by name
--     Selection.Lockout   a persisted antenna that is read back
--   Service       sdrplay_api.cpp: the timeouts of the service, the opening and closing of the API
--     Service.Timeouts    when the service counts as unresponsive, and what an opening leaves
--   Antenna       Antenna.cpp: `listAntennas`, `getAntenna`, `setAntenna`
--     Antenna.Naming      the names that are set and reported
--     Antenna.Duo         `setAntenna` of the RSPduo; its child Reported has what is reported then
--     Antenna.Store       the file of a persisted name; its child Saved has what is loaded
--   Health        HealthMonitor.cpp: the health status, the watchdog, the recovery and its mutexes
--     Health.Cache        the settings that a recovery saves
--     Health.Log          what the health callbacks are told
--     Health.Detection    when a stream counts as stale
--     Health.Blocking     what a recovery comes to
--   Control       the settings that the proxy and the worker each keep, and their parameters' names
--   Worker        SoapySDRPlayWorker.cpp: the worker's state, its messages, its calls of the device
--     Worker.Commands     `handleConfigure`, `handleStart`, `handleStop`
--     Worker.Setters      the other handlers
--     Worker.Loop         `run`, its `switch` and what happens around it, the destructor
--     Worker.Spawning     the process's arguments and `WorkerSpawner`
--     Worker.Outcomes     what holds however a body ends
--     Worker.Replies      what the worker answers; its child Handling has every command
--     Worker.Soundness    the state through each handler; its child Reached has the loop
--     Worker.Configuring  what `handleConfigure` comes to
--     Worker.Ending       how `run` ends
--   Proxy         SoapySDRPlayProxy.cpp: the proxy's state, `sendCommand`, `waitForStatus`
--     Proxy.Process       the start and restart of the worker, the stream's commands, the destructor
--     Proxy.Setters       the setters
--     Proxy.Reading       `setupStream`, `readStream`, the direct access
--     Proxy.Waiting       how the wait for a reply ends
--     Proxy.Whole         the state through each operation; its child Used has any calls
--     Proxy.Stalling      how a stalled worker is restarted, and the stream then
--     Proxy.Delivering    what `readStream` gives, and what `releaseReadBuffer` takes
--   Link          the proxy and the worker together
--     Link.Exchange       a configuration from the proxy to the device and back
--     Link.Setting        each setter from the proxy to the device and back
--   Settings      SettingsAPI.cpp: `writeSetting`; children Reading (`readSetting` and the names),
--                 Members, RoundTrip, Names (the receivers and the modes), Info
--                 (`getSettingInfo`), Listed, ReadBack and LnaStates (what it lists)
--   Registration  Registration.cpp: the loop over the devices of the API; children Finding (`findSDRPlay`,
--                 `makeSDRPlay`), Listing, Cached, Searches
--   Prelude       names that the others share, Boolean tests, lists over the native numbers
--   Tests         concrete runs
--
-- What the model takes from outside. The conversion of a CS16 pair to floats is a parameter, and so is
-- that of a sample to a stream's format. Where the reader waits, what the callbacks do meanwhile is a
-- function. What the kernel does for a pipe is a list of events, one for each round of a loop; the
-- clock and the memory that `read` sees are a list of observations. The printing of a number and its
-- parsing are parameters. What the worker's device, lock and thread answer is an argument of its
-- handlers, and what the operating system answers one of the proxy's operations; a wait for a reply
-- sees a list of rounds. Whether the SDRplay API takes an
-- update is an argument, and so is what its other calls and the scripts of the recovery answer.
--
-- Fuel and bounds. `writeCS16` runs on fuel of one round for each sample and one more, which is
-- enough. The loops of the pipes end with their list of events. The loop of `selectDevice` runs on the
-- retries it has left, that of `Uninit` on its ten tries. The theorems on the ring are for indices
-- below 2 ^ 64, which are centuries of samples. The steps of two processes count without a bound. A
-- rate is its integer part; `getSampleRate` divides doubles, so its result is a fraction. A gain is a
-- number of parts of a decibel, for any number of parts, and a frequency one of parts of a hertz; the
-- device has whole hertz.
--
-- Not modelled: the getters of the proxy that return a member, the calls of
-- shared memory and of processes, logging, fractions and negative values of the numbers in messages, the
-- texts of errors beyond what the worker sends, and the parts of the driver that are not listed above.
pub mod Control
pub mod Prelude
pub mod Ring
pub mod Ipc
pub mod Device
pub mod SampleRate
pub mod Gain
pub mod Frequency
pub mod ApiLock
pub mod Selection
pub mod Service
pub mod Antenna
pub mod Health
pub mod Streaming
pub mod Lifecycle
pub mod Tests
pub mod Worker
pub mod Proxy
pub mod Link
pub mod Settings
pub mod Registration
