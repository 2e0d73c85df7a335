-- ===== src/Broadcooom/Opcode.antt =====
-- `opcode_type` of devices/broadcooom/types.hpp, as far as the engine tells its values apart.
use dc2021f_ooows_public.Base.{ℕ}

abbrev pub alu : ℕ
alu = 0

abbrev pub alu_shf : ℕ
alu_shf = 1

abbrev pub dbl_shf : ℕ
dbl_shf = 2

abbrev pub br : ℕ
br = 3

abbrev pub br_eq : ℕ
br_eq = 4

abbrev pub br_neq : ℕ
br_neq = 5

abbrev pub br_less : ℕ
br_less = 6

abbrev pub br_less_eq : ℕ
br_less_eq = 7

abbrev pub br_greater : ℕ
br_greater = 8

abbrev pub br_greater_eq : ℕ
br_greater_eq = 9

abbrev pub br_eq_ctx : ℕ
br_eq_ctx = 16

abbrev pub br_neq_ctx : ℕ
br_neq_ctx = 17

abbrev pub br_not_signal : ℕ
br_not_signal = 19

abbrev pub csr : ℕ
csr = 21

abbrev pub rx_pkt : ℕ
rx_pkt = 24

abbrev pub r_fifo_rd : ℕ
r_fifo_rd = 25

abbrev pub scratch : ℕ
scratch = 26

abbrev pub ram : ℕ
ram = 27

abbrev pub t_fifo_wr : ℕ
t_fifo_wr = 28

abbrev pub immed : ℕ
immed = 29

abbrev pub immed_b0 : ℕ
immed_b0 = 30

abbrev pub immed_b1 : ℕ
immed_b1 = 31

abbrev pub immed_b2 : ℕ
immed_b2 = 32

abbrev pub immed_b3 : ℕ
immed_b3 = 33

abbrev pub immed_w0 : ℕ
immed_w0 = 34

abbrev pub immed_w1 : ℕ
immed_w1 = 35

abbrev pub ld_field : ℕ
ld_field = 36

abbrev pub ld_field_w_clr : ℕ
ld_field_w_clr = 37

abbrev pub ctx_arb : ℕ
ctx_arb = 39
