-- ===== src/Compute/Methods.antt =====
-- Class IDs and method offsets of src/compute.rs.
use gpu_compute_nostd.Base.{ℕ}

abbrev pub kepler_compute_a : ℕ
kepler_compute_a = 0xA0C0

abbrev pub maxwell_compute_a : ℕ
maxwell_compute_a = 0xB0C0

abbrev pub pascal_compute_a : ℕ
pascal_compute_a = 0xC0C0

abbrev pub volta_compute_a : ℕ
volta_compute_a = 0xC3C0

abbrev pub turing_compute_a : ℕ
turing_compute_a = 0xC5C0

abbrev pub ampere_compute_a : ℕ
ampere_compute_a = 0xC6C0

abbrev pub ada_compute_a : ℕ
ada_compute_a = 0xC9C0

abbrev pub nvc6c0_set_shader_local_memory_a : ℕ
nvc6c0_set_shader_local_memory_a = 0x0790

abbrev pub nvc6c0_set_shader_local_memory_b : ℕ
nvc6c0_set_shader_local_memory_b = 0x0794

abbrev pub nvc6c0_set_constant_buffer_bind : ℕ
nvc6c0_set_constant_buffer_bind = 0x0AB0

abbrev pub nvc6c0_cb_selector : ℕ
nvc6c0_cb_selector = 0x2380

abbrev pub nvc6c0_cb_pos : ℕ
nvc6c0_cb_pos = 0x2384

abbrev pub nvc6c0_cb_data : ℕ
nvc6c0_cb_data = 0x2388

abbrev pub nvc6c0_set_program_region_a : ℕ
nvc6c0_set_program_region_a = 0x1608

abbrev pub nvc6c0_set_program_region_b : ℕ
nvc6c0_set_program_region_b = 0x160C

abbrev pub nvc6c0_set_shader_program : ℕ
nvc6c0_set_shader_program = 0x2000

abbrev pub nvc6c0_launch_dim_x : ℕ
nvc6c0_launch_dim_x = 0x2074

abbrev pub nvc6c0_launch_dim_y : ℕ
nvc6c0_launch_dim_y = 0x2078

abbrev pub nvc6c0_launch_dim_z : ℕ
nvc6c0_launch_dim_z = 0x207C

abbrev pub nvc6c0_set_block_dim_x : ℕ
nvc6c0_set_block_dim_x = 0x2040

abbrev pub nvc6c0_set_block_dim_y : ℕ
nvc6c0_set_block_dim_y = 0x2044

abbrev pub nvc6c0_set_block_dim_z : ℕ
nvc6c0_set_block_dim_z = 0x2048

abbrev pub nvc6c0_set_shared_memory_size : ℕ
nvc6c0_set_shared_memory_size = 0x204C

abbrev pub nvc6c0_launch : ℕ
nvc6c0_launch = 0x2080

abbrev pub nvc6c0_set_report_semaphore_a : ℕ
nvc6c0_set_report_semaphore_a = 0x1B00

abbrev pub nvc6c0_set_report_semaphore_b : ℕ
nvc6c0_set_report_semaphore_b = 0x1B04

abbrev pub nvc6c0_set_report_semaphore_c : ℕ
nvc6c0_set_report_semaphore_c = 0x1B08

abbrev pub nvc6c0_set_report_semaphore_d : ℕ
nvc6c0_set_report_semaphore_d = 0x1B0C
