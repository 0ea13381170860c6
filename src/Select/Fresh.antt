-- ===== src/Select/Fresh.antt =====
-- `createVirtReg` gives a register that was not made before.
use remniw.Prelude.{ℕ, ◌+◌, ◌<◌, ◌%◌, ◌^◌, ◌≡◌, some, List, [], ◌∷◌, ◌++◌, refl, arith}
use remniw.Prelude.Bits.{bit_or_flag}
use remniw.Asm.LiveRanges.{Emission}
use remniw.RegAlloc.Register.{create_virt_reg, index2_virt_reg}
use remniw.Select.{Counters, Select, new_virt_reg, pure, step, ◌>>=◌, ◌>>◌, after}

pub new_virt_reg_lem :
    (c : Counters)
    → c.next_index < 2 ^ 31
    → new_virt_reg c ≡ some (c.next_index + 2 ^ 31, record c { next_index = c.next_index + 1 }, [])
unfolding new_virt_reg create_virt_reg index2_virt_reg
new_virt_reg_lem c h =
    let flag = bit_or_flag 31 c.next_index h in
    let next : (c.next_index + 1) % 2 ^ 32 ≡ c.next_index + 1 = omega arith in
    ground (arith, flag, next)

-- A handler that begins with it goes on with that register.
pub with_new_virt_reg :
    {A : Type 0} (c : Counters) (f : ℕ → Select A)
    → c.next_index < 2 ^ 31
    → (new_virt_reg >>= f) c
      ≡ after f (c.next_index + 2 ^ 31, record c { next_index = c.next_index + 1 }, [])
with_new_virt_reg c f h = rw (new_virt_reg_lem c h, ◌>>=◌)

-- A handler that begins with one that has returned goes on with its result.
pub with_result :
    {A B : Type 0} (m : Select A) (c : Counters) (f : A → Select B)
    (r : A × Counters × List Emission)
    → m c ≡ some r
    → (m >>= f) c ≡ after f r
with_result m c f r e = rw (e, ◌>>=◌)

-- A step before a handler that returns.
pub step_before :
    {A : Type 0} (e : Emission) (k : Select A) (c c' : Counters) (a : A) (es : List Emission)
    → k c ≡ some (a, c', es)
    → (step e >> k) c ≡ some (a, c', e ∷ es)
step_before e k c c' a es h = rw (h, ◌>>=◌) refl

pub pure_before :
    {A : Type 0} (k : Select A) (c c' : Counters) (a : A) (es : List Emission)
    → k c ≡ some (a, c', es)
    → (pure tt >> k) c ≡ some (a, c', es)
pure_before k c c' a es h = rw (h, ◌>>=◌) refl

-- One handler after another.
pub then_some :
    {A B : Type 0} (m : Select A) (k : A → Select B) (c c1 c2 : Counters) (a : A) (b : B)
    (es fs : List Emission)
    → m c ≡ some (a, c1, es)
    → k a c1 ≡ some (b, c2, fs)
    → (m >>= k) c ≡ some (b, c2, es ++ fs)
then_some m k c c1 c2 a b es fs e h = rw (e, ◌>>=◌) (rw (h, after) refl)
