-- ===== src/Mmio/Registers.antt =====
-- The register offsets of src/mmio.rs, relative to BAR0.
use gpu_compute_nostd.Base.{ℕ, ◌+◌, ◌^◌}

abbrev pub nv_pmc : ℕ
nv_pmc = 0x000000

abbrev pub nv_pmc_boot_0 : ℕ
nv_pmc_boot_0 = nv_pmc + 0x000

abbrev pub nv_pmc_intr_0 : ℕ
nv_pmc_intr_0 = nv_pmc + 0x100

abbrev pub nv_pmc_intr_en_0 : ℕ
nv_pmc_intr_en_0 = nv_pmc + 0x140

abbrev pub nv_pmc_enable : ℕ
nv_pmc_enable = nv_pmc + 0x200

abbrev pub nv_pmc_intr_pfifo : ℕ
nv_pmc_intr_pfifo = 2 ^ 8

abbrev pub nv_pmc_intr_pgraph : ℕ
nv_pmc_intr_pgraph = 2 ^ 12

abbrev pub nv_pmc_intr_ptimer : ℕ
nv_pmc_intr_ptimer = 2 ^ 20

abbrev pub nv_pbus : ℕ
nv_pbus = 0x001000

abbrev pub nv_pbus_intr_0 : ℕ
nv_pbus_intr_0 = nv_pbus + 0x100

abbrev pub nv_pbus_intr_en_0 : ℕ
nv_pbus_intr_en_0 = nv_pbus + 0x140

abbrev pub nv_pfifo : ℕ
nv_pfifo = 0x002000

abbrev pub nv_pfifo_intr_0 : ℕ
nv_pfifo_intr_0 = nv_pfifo + 0x100

abbrev pub nv_pfifo_intr_en_0 : ℕ
nv_pfifo_intr_en_0 = nv_pfifo + 0x140

abbrev pub nv_pfifo_runlist_base : ℕ
nv_pfifo_runlist_base = nv_pfifo + 0x2270

abbrev pub nv_ptimer : ℕ
nv_ptimer = 0x009000

abbrev pub nv_ptimer_time_0 : ℕ
nv_ptimer_time_0 = nv_ptimer + 0x400

abbrev pub nv_ptimer_time_1 : ℕ
nv_ptimer_time_1 = nv_ptimer + 0x404

abbrev pub nv_ptimer_intr_0 : ℕ
nv_ptimer_intr_0 = nv_ptimer + 0x100

abbrev pub nv_ptimer_intr_en_0 : ℕ
nv_ptimer_intr_en_0 = nv_ptimer + 0x140

abbrev pub nv_pfb : ℕ
nv_pfb = 0x100000

abbrev pub nv_pfb_cfg0 : ℕ
nv_pfb_cfg0 = nv_pfb + 0x200

abbrev pub nv_pfb_vram_size : ℕ
nv_pfb_vram_size = nv_pfb + 0x20C

abbrev pub nv_pfb_nparts : ℕ
nv_pfb_nparts = nv_pfb + 0x22C

abbrev pub nv_pgraph : ℕ
nv_pgraph = 0x400000

abbrev pub nv_pgraph_intr : ℕ
nv_pgraph_intr = nv_pgraph + 0x1100

abbrev pub nv_pgraph_intr_en : ℕ
nv_pgraph_intr_en = nv_pgraph + 0x1140

abbrev pub nv_pgraph_gpc_count : ℕ
nv_pgraph_gpc_count = nv_pgraph + 0x2608

abbrev pub nv_pgraph_tpc_per_gpc : ℕ
nv_pgraph_tpc_per_gpc = nv_pgraph + 0x2614

abbrev pub nv_pdisp : ℕ
nv_pdisp = 0x610000

abbrev pub nv_pdisp_intr_0 : ℕ
nv_pdisp_intr_0 = nv_pdisp + 0x020

abbrev pub nv_pmu : ℕ
nv_pmu = 0x10A000

abbrev pub nv_pmu_falcon_irqsrd : ℕ
nv_pmu_falcon_irqsrd = nv_pmu + 0x020

abbrev pub nv_pmu_falcon_irqmset : ℕ
nv_pmu_falcon_irqmset = nv_pmu + 0x024

abbrev pub nv_pmu_falcon_mailbox0 : ℕ
nv_pmu_falcon_mailbox0 = nv_pmu + 0x040

abbrev pub nv_pmu_falcon_mailbox1 : ℕ
nv_pmu_falcon_mailbox1 = nv_pmu + 0x044

abbrev pub nv_sec2 : ℕ
nv_sec2 = 0x840000

abbrev pub nv_gsp : ℕ
nv_gsp = 0x110000
