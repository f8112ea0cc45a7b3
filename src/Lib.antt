-- ===== src/Lib.antt =====
-- Verification of the Eleven Rack driver: the C tools (Tools/) and the DriverKit extension
-- (ElevenRackDriverExtension/).
--
-- The program. A user-space engine (Tools/erengine.c) streams audio between the USB device and a
-- Core Audio plug-in over a ring in shared memory (Tools/ERAudioRing.h). A bridge
-- (Tools/ermidi_bridge.c) carries MIDI between CoreMIDI and the device's USB-MIDI endpoints. The rig
-- tools (Tools/errig_read.c, Tools/er_inventory.c, Tools/er_inventory_export.c) ask the device for its
-- edit buffer over SysEx, decode it and write its settings as a table. The DriverKit extension
-- (ElevenRackDriver.cpp, ElevenRackDevice.cpp, ElevenRackDriverUserClient.cpp) is the other way to
-- the device: an audio device of its own, which streams by isochronous USB transfers, follows the
-- clock of the hardware, and restarts a transport that has stalled.
--
-- The files.
--   Base and its children: names of the libraries passed on, Boolean tests on native numbers, lists
--     measured by native numbers, words, and `|` on disjoint bit fields.
--   Ring: the record `ErRing` is `ERRing`; er__space, er__avail, er__wr, er__rd, er_in_write, er_in_read,
--     er_out_write, er_out_read, er_peek_levels and the meter readers are the functions of the same
--     names in Tools/ERAudioRing.h. Ring/Spsc has the two sides of one direction as a step relation with a
--     step for each access to shared memory; Ring/Shm has er_ring_create, er_ring_attach and
--     er_ring_close on the object, with the answers of the system calls as arguments.
--   Midi: Bridge is Tools/ermidi_bridge.c (emit_event is emitEvent, encode_midi is encodeMIDI,
--     core_midi_output is coreMidiOutput, read_events is the loop of reader). Sysex is read_sysex of
--     Tools/errig_read.c; Requests has its requests and the tests of its answers.
--   Payload: unpack_7bit and the decoding of print_rig_volume in Tools/errig_read.c, with the
--     packing of the device as the reference.
--   Rig: the sections and settings of a decoded rig (read_le32 to find_rig_setting), Names, Parameters,
--     Scales and Display for the tables of Tools/errig_read.c and format_setting_value, Export and Csv
--     for Tools/er_inventory_export.c, Summary/Loops for print_rig_summary, with a report built from the
--     functions of the export in Summary as the reference.
--   Engine: feedBytes and emitSuperframe, and the frame counts of armOut, in Tools/erengine.c.
--     Engine/Rates has inDone, outDone, armIn, armOut, reconfigure and rateFollow on the requests in flight
--     and the rates that setSampleRate sends.
--   Inventory: the queries and the loop of Tools/er_inventory.c over the 208 programs. Inventory/Files
--     has save_capture, program_label and capture_name.
--   Driver/Host: the fields of ElevenRackDevice_IVars as the record `Device`, with the state of the
--     frameworks and the calls made in it; `Platform` has the calls of DriverKit, USBDriverKit and
--     AudioDriverKit as functions of that state; `Do` is an operation with its error codes and with the
--     crash of a null object or a division by zero.
--   Driver/Clock: SetUSBHardwareRate, SetUSBClockSource, ReadUSBClockStatus, SetClockSource and
--     GetAudioStatus. Driver/Samples: the conversions of the two completion handlers on float and
--     double, and the pace of the playback packets. Driver/Packets: their loops over the packets.
--     Driver/Completions: InputIsochComplete_Impl and OutputIsochComplete_Impl. Driver/Transport:
--     StartUSBTransport and StopUSBTransport. Driver/Rates: HandleChangeSampleRate, ApplySampleRate,
--     UpdateLatencyProperties, UpdateTimers and the configuration changes.
--     Driver/Streaming: StartIO, StopIO and the watchdog. Driver/Service: Start_Impl and Stop_Impl of
--     the driver and init of the device; Driver/Service/Handle takes what IOUSBHostDevice documents of
--     Open and Close as its hypotheses. Driver/UserClient: ExternalMethod.
--   Driver/Maintain and Driver/Hoare: the rules by which an operation is shown to keep an invariant
--     and to meet its pre- and postconditions, one for each combinator of `Do`.
--   The children of these modules prove; each component has a module Tests with concrete runs.
--
-- The model. A word of w bits is a natural number below 2 ^ w, and sums and casts wrap by a
-- remainder; an int32_t is kept as its bits. Samples are of any type; the loudness of one is an
-- argument where the meters need it. A four-character key is the list of its characters. A buffer
-- with a fill count is the list of the bytes written. A real number that is shown is a curve with
-- the position on it. The doubles of the playback pace, in the engine and the extension, and the
-- extension's floats are dyadic numbers that round to even at 53 or 24 bits; rates are whole numbers
-- of Hz. Handlers of the extension run one after another, as on its queue.
--
-- Fuel. The encoder has fuel for as many rounds as there are bytes, and each round takes one or more.
-- The unpacking loop has fuel for the packed length, and takes eight bytes a round. The section walk
-- has fuel for the payload's length, and each section is of four bytes at least. read_sysex has
-- the 4096 attempts of the code. The walk over the interfaces has 256 rounds, since the number of
-- interfaces of a configuration is a byte. The loops over packets, lanes and frames are counted.
--
-- Not modelled. What the USB, CoreMIDI, Core Audio and file calls do, beyond their answers; threads
-- other than the two sides of the ring, whose memory is taken as sequentially consistent; what printf makes of
-- a number; the recording modes of the engine and its meters; the times and the restored program of
-- the inventory; the probes and test tools; of the extension, the release of local buffers, the list
-- of stream formats, the text of the custom property and free; the applications and the Objective-C
-- and Swift code.
pub mod Base
pub mod Ring
pub mod Midi
pub mod Payload
pub mod Rig
pub mod Engine
pub mod Inventory
pub mod Driver
