-- ===== src/Broadcooom/Bounds.antt =====
-- Where the microengine's instructions write.
use dc2021f_ooows_public.Base.{ℕ, ◌<◌, ◌≡◌, arith}
use dc2021f_ooows_public.Broadcooom.Types.{num_threads, RegRef, reg_at}
use dc2021f_ooows_public.Broadcooom.Engine.{absolute_register}

-- A register number that an instruction holds, read by one of the four threads, is below 256, the
-- number of registers.
pub absolute_register-lt :
    (ctx low inst : ℕ) → ctx < num_threads → absolute_register ctx (reg_at low inst) < 256
unfolding absolute_register
absolute_register-lt ctx low inst h = ground arith

-- Two threads that name registers below 64, each relative to itself, never mean the same one, and
-- one thread that names two different ones below 64 means two: the 256 registers are shared out.
pub absolute_register_injective :
    (ctx ctx' : ℕ) (r r' : RegRef)
    → ctx < num_threads
    → ctx' < num_threads
    → r.ref_type ≡ 0
    → r'.ref_type ≡ 0
    → r.reg < 64
    → r'.reg < 64
    → absolute_register ctx r ≡ absolute_register ctx' r'
    → (ctx ≡ ctx') × (r.reg ≡ r'.reg)
unfolding absolute_register
absolute_register_injective ctx ctx' r r' c c' t t' s s' e = ground arith
