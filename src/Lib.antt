-- ===== src/Lib.antt =====
-- The Python side of a hardware-in-the-loop test bench for an induction motor. An FPGA simulates a
-- motor behind a three-level NPC inverter; the scripts drive it, capture what it does and compare that
-- with a reference model. This library models the parts below and proves what makes them correct.
--
-- The parts, and how they meet:
-- - Gate (scripts/hil_fullstack_mock.py, verification/cocotb/scripts/top_fullstack_mock.py): the C
--   text of the native mocks. `gate_step` is the state machine of one inverter leg, `pwm_step` the
--   carrier, `npc_state` the command, `gate_to_v` and its variants the voltage. The state of a leg is
--   the record GateDriver; `gate_run` and `pwm_steps` are the calls of the main loop in their order.
-- - Mock (top_fullstack_mock.py): `main` of the mock, which joins Gate, the ramp of the references and
--   the motor, and compares the rows of a simulation.
-- - Uart (verification/cocotb/drivers/uart_driver.py): `send_byte` gives the level of the line as a
--   function of time in ns, `recv_byte` reads a pin that is such a function.
-- - Serial (verification/cocotb/drivers/serial_manager_driver.py): commands and replies of the register
--   protocol, over Uart.
-- - Telemetry (verification/cocotb/scripts/fpga_vs_c.py): packets and their CRC-16, the counter of 32
--   bits, and the loop that receives and gathers. A capture then goes to the comparison.
-- - Motor (verification/cocotb/models/im_reference_model.py, verification/cocotb/scripts/
--   prime_c_model.py): the parameters and the environment they come from, the model in Python (`step`),
--   and Backend, which compiles and loads the C model or falls back.
-- - Stimulus (verification/cocotb/models/vf_control.py, sine_control.py, and VFStimulus of
--   fpga_vs_c.py): the reference voltages.
-- - Comparison (fpga_vs_c.py, and _metrics of hilbin_vs_c.py): `run_c_model` joins Stimulus and the C
--   model, `run_c_model_pwm_fed` takes the captured voltages; Metrics has the filter, the lag and the
--   errors.
-- - Hilbin (verification/cocotb/scripts/hilbin_vs_c.py, hilbin_check.py): recorded captures, the repair
--   of their gate events, and the check of their quality. Replay is `run_c_model_seeded`, Batch is
--   `run_one` and `main`, Thin is `_align_and_decimate`.
-- - SpaceVector (verification/cocotb/scripts/space_vector_metrics.py): the lag between two traces,
--   `_bounded_xcorr_lag`.
-- - Validation (scripts/validate_hil_pwm.py): the C runner that reads a capture, replays it and sums
--   the errors.
-- - Campaign (verification/cocotb/scripts/run_campaign.py, run_campaign_matrix.py): what a campaign
--   passes to the simulator, how it judges a log, and what it remembers of its runs.
-- - Acquisition (verification/cocotb/scripts/run_l4_campaign.py): the calls that a campaign on the board
--   makes to the gateway; what it captures goes to Hilbin.
-- - Chapter (verification/cocotb/scripts/chapter_common.py): what the tables of the results chapter
--   take from the directories that Campaign leaves.
-- - Explorer (verification/cocotb/scripts/results_explorer_data.py): which columns of a result are
--   compared with each other.
-- - Transient (verification/cocotb/models/transient_metrics.py): the response to a load step.
-- - Watchdog (scripts/hil-watchdog.py): when the controller on the board is restarted.
-- - Number: the floating-point operations as an interface, with its instance by the integers.
-- - Base: tests, lists, integers and bits that all of them share.
--
-- Numbers: counters, times and bytes are natural numbers. Times are ns for the UART, cycles of the
-- capture clock elsewhere, so that no floating point is needed; a width is written out (`% 2 ^ 16`,
-- `2 ^ 32`). The voltages of Gate are in quarters of the DC link. Where the scripts compute with
-- floats, the operations are the record Number, and a theorem names the laws it needs; in Campaign the
-- numbers of the configuration are the record Floats. In Validation times are the record Clock, whose sum
-- may round; elsewhere times are exact.
--
-- Fuel: the loops on fuel are the poll for a start bit, where one round more than the timeout has
-- nanoseconds is enough since a poll waits at least 1 ns; the receiving loop, for which
-- `capture_loop_complete` says how many rounds are enough; the replay loop of Validation, whose
-- fuel is an argument, and for which `run_capture-total` says when it is enough; and the loop of Mock,
-- which takes three rounds more than the last row's time has steps, which `mock_main-all` proves enough. All else recurs on a list or on a count.
--
-- Parameters: the return codes and results of the simulator (subprocess), the order in which a thread
-- pool completes its runs, the process environment, file contents and JSON, the datagrams that arrive,
-- what the board and its gateway answer, the compiler and the C library of the motor (a git submodule),
-- sine, cosine and the square root, and numpy's sampling on a grid, correlation and median.
--
-- Not modelled: the step through ctypes, plots, reports, dashboards and figures, `main` of
-- scripts/hil_fullstack_mock.py, the serial console and the live capture window, scripts/test/
-- udp_receiver.py, verification/cocotb/models/sim_benchmark.py, the cocotb tests and entry points, the
-- Go application in apps/hil-go, the VHDL in src/rtl and src/tb, the C firmware in src/ps_app, the board
-- image in syn, notebooks and documentation.
pub mod Base
pub mod Gate
pub mod Uart
pub mod Serial
pub mod Telemetry
pub mod Acquisition
pub mod Campaign
pub mod Chapter
pub mod Comparison
pub mod Explorer
pub mod Hilbin
pub mod Mock
pub mod Motor
pub mod Number
pub mod SpaceVector
pub mod Stimulus
pub mod Transient
pub mod Validation
pub mod Watchdog
