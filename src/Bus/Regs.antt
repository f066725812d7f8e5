-- ===== src/Bus/Regs.antt =====
-- Register offsets: struct sis1100_reg (sis1100_map.h), struct plx9054reg (plx9054reg.h), and the
-- registers of the VME controller, struct sis3100_reg (sis3100_map.h).
use mdaq_midas.Common.{ℕ, ◌+◌}
use mdaq_midas.Bus.Monad.{Port, plx, reg, raw}

abbrev pub ident : Port
ident = reg 0x0

abbrev pub sr : Port
sr = reg 0x4

abbrev pub cr : Port
cr = reg 0x8

abbrev pub t_hdr : Port
t_hdr = reg 0x80

abbrev pub raw_t_hdr : Port
raw_t_hdr = raw 0x80

abbrev pub t_am : Port
t_am = reg 0x84

abbrev pub t_adl : Port
t_adl = reg 0x88

abbrev pub t_dal : Port
t_dal = reg 0x90

abbrev pub tc_hdr : Port
tc_hdr = reg 0x9c

abbrev pub tc_dal : Port
tc_dal = reg 0xa0

abbrev pub raw_tc_dal : Port
raw_tc_dal = raw 0xa0

abbrev pub p_balance : Port
p_balance = reg 0xa8

abbrev pub prot_error : Port
prot_error = reg 0xac

abbrev pub opt_csr : Port
opt_csr = reg 0xf0

abbrev pub mailext : ℕ → Port
mailext i = reg (0x100 + i)

abbrev pub plx_l2pdbell : Port
plx_l2pdbell = plx 0x64

abbrev pub plx_intcsr : Port
plx_intcsr = plx 0x68

abbrev pub plx_cntrl : Port
plx_cntrl = plx 0x6c

abbrev pub in_latch_irq : ℕ
in_latch_irq = 0x84

abbrev pub vme_irq_sc : ℕ
vme_irq_sc = 0x104

abbrev pub dsp_sc : ℕ
dsp_sc = 0x300

abbrev pub lam_enable : ℕ
lam_enable = 0x108

abbrev pub plx_dmamode0 : Port
plx_dmamode0 = plx 0x80

abbrev pub plx_dmadpr0 : Port
plx_dmadpr0 = plx 0x90

abbrev pub plx_dmacsr : Port
plx_dmacsr = plx 0xa8

abbrev pub d0_bc : Port
d0_bc = reg 0xb0

abbrev pub tp_special : Port
tp_special = reg 0xe8

abbrev pub tp_data : Port
tp_data = reg 0xec
