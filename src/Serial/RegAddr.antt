-- ===== src/Serial/RegAddr.antt =====
-- `class RegAddr` of verification/cocotb/drivers/serial_manager_driver.py.
use hardware_in_the_loop.Base.{ℕ}

abbrev pub vdc_bus : ℕ
vdc_bus = 0x00

abbrev pub torque_load : ℕ
torque_load = 0x01

abbrev pub i_alpha : ℕ
i_alpha = 0x05

abbrev pub i_beta : ℕ
i_beta = 0x06

abbrev pub flux_alpha : ℕ
flux_alpha = 0x07

abbrev pub flux_beta : ℕ
flux_beta = 0x08

abbrev pub speed_mech : ℕ
speed_mech = 0x09

abbrev pub num_regs : ℕ
num_regs = 10
