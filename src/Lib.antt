-- ===== src/Lib.antt =====
-- The OpenGlow kernel module: the driver of a laser cutter's stepper motors, laser and interlock.
--
-- The driver's parts, and the files that model them:
--
-- * The stepper driver (src/cnc.c, src/cnc_private.h) plays a job that a user-space feeder writes into
--   a ring of pulse bytes: an SDMA engine, timed by the EPIT, consumes one byte a step. Its state is
--   the record `Cnc` (Cnc/State.antt): the members of `struct cnc` and `struct cnc_status` that the
--   operations read or write. Cnc/Motion.antt has `_driver_stop`, the two ramps, the ramp timer's
--   update and the SDMA callback; Cnc/Control.antt `cnc_stop`, `cnc_halt`, `cnc_disable`, `cnc_enable`,
--   the 40 V rail, `cnc_single_z_step` and the two rate attributes; Cnc/Run.antt `cnc_run`,
--   `cnc_backtrack` and `cnc_resume`; Cnc/Fault.antt the fault interrupt and its tasklet, what the probe
--   sets up, and the panic handler; Cnc/Modes.antt the microstep modes and motor locks, Cnc/Decay.antt the
--   decay modes, Cnc/Readback.antt what is read of the safety chain, Cnc/Position.antt the position,
--   Cnc/Sampler.antt the sampler of the laser lines; Cnc/Laser.antt the laser latch, the charge pump's timer and the
--   streaming attribute. Cnc/Event.antt puts them together: an event is one locked section or one
--   handler, and `steps` runs any sequence of events, which is how contexts interleave.
-- * The pulse ring (src/cnc_buffer.c) is Buffer.antt over Ring.antt. The kernel's kfifo is the record
--   `Kfifo` of operations with their documented laws, a parameter; Ring/Plain.antt fills it.
-- * The backtrack arithmetic (src/cnc_backtrack.h) is Backtrack.antt.
-- * The safety interlock (src/cnc_interlock.c) is Interlock.antt, with its histories in
--   Interlock/Policy.antt; Interlock/Line.antt puts it together with the driver, whose line it drives.
-- * The pins and the sets of pin changes (src/cnc_pins.h, src/cnc_pins.c, `io_change_pins` of src/io.c)
--   are Pins.antt and Io.antt; Io/Lines.antt reads off what a list of calls leaves on a line.
-- * The pulse device and its attribute stores (src/cnc_api.c) are Pulsedev.antt: a holder's close halts
--   the driver where the dead man's switch is armed, and tells the other drivers to make themselves safe.
--   Pulsedev/Settings.antt and Pulsedev/Modes.antt have the stores and shows of the attributes.
-- * The thermal driver (src/thermal.c) is Thermal.antt, and the smooth LED trigger
--   (src/ledtrig_smooth.c) Ledtrig.antt, with its fixed-point simulation in Ledtrig/Simulation.antt and
--   its activation on a light in Ledtrig/Activation.antt; Thermal/Fans.antt has the duty of the fans.
-- * The PIC driver (src/pic.c) is Pic.antt. The chip is the record `Chip` (Pic/Chip.antt), a register
--   file whose answers to the words of a transfer are documented in src/pic.h; Pic/Tests.antt fills it.
--   Pic/Raw.antt has the raw transfers and the receive buffer, Pic/Hex.antt the attributes that take and
--   show text (src/pic_api.c), where the kernel's `sscanf` is a parameter,
--   Pic/Leds.antt the LED class devices and their work queue (src/pic_leds.c).
-- * The head driver (src/head.c, src/head_api.c) is Head.antt, with a working head as the record
--   `HeadChip` (Head/Chip.antt), which Head/Tests.antt fills; Head/Attributes.antt has the attributes that
--   take or show a text.
-- * What the probes, the removals and the module's init and exit (src/glowforge.c) acquire and release
--   is Cnc/Probe.antt, Thermal/Probe.antt, Pic/Probe.antt, Head/Probe.antt and Module.antt, each a list
--   of calls over Setup.antt.
-- * The script of the SDMA engine (asm/sdma.asm) is Engine.antt: Engine/Bytes.antt is its path over one
--   byte of the ring, with the words it writes to the GPIO port, Engine/Tick.antt an event of the step
--   timer. Its parameters are the bytes in memory and the ring's size. The driver's model takes the
--   engine's effects on it, a set mailbox and an interrupt, as events; Engine/DeadStop.antt is about the
--   engine as the driver sets it for a backward run.
-- * The GPIO lines and PWM channels that a component requests and releases (src/io.c) are
--   Io/Resources.antt; Io/Address.antt has the register address of a set of pins.
-- * The path of a pulse byte from a write to the engine is Playback.antt: the driver's model, the bytes
--   in memory and the engine together, stepped by writes and by bytes of the engine in any order. The
--   copy out of user space is the record `Copier`, which Playback/Plain.antt fills. Playback/Job.antt
--   puts the driver's start, the engine's bytes and the interrupts they raise together.
-- * The dead man's switch across the drivers (src/notifiers.h) is Deadman.antt: the close of the pulse
--   device and the chain of handlers that it calls, over the stepper, PIC, head and thermal drivers with
--   their hardware. The kernel's chain is the record `NotifierChain`, which Deadman/Tests.antt fills.
-- * What user space does to the stepper driver is Access.antt: the attributes and the operations of the
--   device, mixed with the events of Cnc/Event.antt, to which Access/Starts.antt and Access/Stores.antt
--   trace every one of them; Access/CanRun.antt is about a run from any state.
--
-- Conventions: a call to a kernel service is an entry, newest first, of a list that the function leaves
-- (Kernel.antt), and what a service answers is an argument, with 0 for success. Machine words are
-- natural numbers with the wrap-around written out. A function that releases its lock in the middle
-- takes what other contexts do meanwhile as an argument (`between`, `during`), or is split into its
-- locked sections. The fault mask is three named bits.
--
-- Bounds: the loop over time is the ramp, which Cnc/Ramp.antt bounds by 1992 updates for every accepted
-- frequency and ramp rate. Two loops run on fuel: the lookup of a brightness, 256 for a range of
-- 256 entries, which Ledtrig/Lookup.antt shows to be enough, and the bytes that one event of the engine
-- takes, the ring's size and one more, which Engine/Ends.antt shows to be enough.
--
-- Not modelled: the delays of the SDMA script and the flag of its timer; module parameters, by which a
-- disabled driver's probe returns at once; the text formats of the attributes, but for those of the
-- PIC driver; logging; locks, except for the sections that they delimit.

pub mod Access
pub mod Backtrack
pub mod Base
pub mod Buffer
pub mod Cnc
pub mod Deadman
pub mod Engine
pub mod Head
pub mod Interlock
pub mod Io
pub mod Kernel
pub mod Ledtrig
pub mod Module
pub mod Pic
pub mod Pins
pub mod Playback
pub mod Pulsedev
pub mod Ring
pub mod Setup
pub mod Thermal
