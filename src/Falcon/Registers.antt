-- ===== src/Falcon/Registers.antt =====
-- The Falcon register offsets of src/falcon.rs, relative to a unit's base.
use gpu_compute_nostd.Base.{ℕ, ◌^◌}

abbrev pub falcon_irqsrd : ℕ
falcon_irqsrd = 0x020

abbrev pub falcon_irqsset : ℕ
falcon_irqsset = 0x024

abbrev pub falcon_irqsclr : ℕ
falcon_irqsclr = 0x028

abbrev pub falcon_irqmset : ℕ
falcon_irqmset = 0x024

abbrev pub falcon_irqmclr : ℕ
falcon_irqmclr = 0x028

abbrev pub falcon_irqdest : ℕ
falcon_irqdest = 0x02C

abbrev pub falcon_mailbox0 : ℕ
falcon_mailbox0 = 0x040

abbrev pub falcon_mailbox1 : ℕ
falcon_mailbox1 = 0x044

abbrev pub falcon_os : ℕ
falcon_os = 0x080

abbrev pub falcon_imemc : ℕ
falcon_imemc = 0x180

abbrev pub falcon_imemd : ℕ
falcon_imemd = 0x184

abbrev pub falcon_imemt : ℕ
falcon_imemt = 0x188

abbrev pub falcon_dmemc : ℕ
falcon_dmemc = 0x1C0

abbrev pub falcon_dmemd : ℕ
falcon_dmemd = 0x1C4

abbrev pub falcon_cpuctl : ℕ
falcon_cpuctl = 0x100

abbrev pub falcon_bootvec : ℕ
falcon_bootvec = 0x104

abbrev pub falcon_hwcfg : ℕ
falcon_hwcfg = 0x108

abbrev pub falcon_dmactl : ℕ
falcon_dmactl = 0x10C

abbrev pub falcon_dmatrfbase : ℕ
falcon_dmatrfbase = 0x110

abbrev pub falcon_dmatrfmoffs : ℕ
falcon_dmatrfmoffs = 0x114

abbrev pub falcon_dmatrfcmd : ℕ
falcon_dmatrfcmd = 0x118

abbrev pub falcon_dmatrffboffs : ℕ
falcon_dmatrffboffs = 0x11C

abbrev pub falcon_cpuctl_start : ℕ
falcon_cpuctl_start = 2 ^ 1

abbrev pub falcon_cpuctl_halt : ℕ
falcon_cpuctl_halt = 2 ^ 2
