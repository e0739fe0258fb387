-- ===== src/Ids.antt =====
-- yalnix_framework/headers/identifiers.h: the tagged 32-bit identifiers that user programs hold.
mod Tests
use Prim.Native.Nat.{bit_or}
use cs58final_project.Prelude.{
  ℕ, ◌+◌, ◌-◌, ◌*◌, ◌/◌, ◌%◌, ◌^◌, ◌<◌, ◌≡◌, ◌≢◌, Bool, true, arith, ◌==◌,
}

-- The four flags, the top two bits of an identifier.
pub data Flag : Type 0 where
  sem pipe lock cvar : Flag

abbrev pub flag_code : Flag → ℕ
flag_code sem = 0
flag_code pipe = 1
flag_code lock = 2
flag_code cvar = 3

-- `(unsigned int) n` of a register or an `int`, given by its bit pattern
abbrev pub to_unsigned : ℕ → ℕ
to_unsigned n = n % 2 ^ 32

-- `IS_SEM_ID` and the three others: `>> FLAG_SHIFT` leaves the flag.
abbrev pub is_id : Flag → ℕ → Bool
is_id f n = to_unsigned n / 2 ^ 30 == flag_code f

-- `GET_ID`: `& ID_MASK` keeps the low thirty bits.
abbrev pub get_id : ℕ → ℕ
get_id n = to_unsigned n % 2 ^ 30

-- `CREATE_ID`: the flag, shifted, and the low thirty bits share no bit, so `|` is a sum.
abbrev pub create_id : Flag → ℕ → ℕ
create_id f i = flag_code f * 2 ^ 30 + to_unsigned i % 2 ^ 30

-- An identifier that is made from a table index below 2 ^ 30 gives the index back, fits in 32 bits,
-- and is recognised by the test of its own flag.
pub get_id-create_id :
    (f : Flag) (i : ℕ)
    → i < 2 ^ 30
    → (get_id (create_id f i) ≡ i) × (create_id f i < 2 ^ 32) × (is_id f (create_id f i) ≡ true)
get_id-create_id sem i h = ground arith
get_id-create_id pipe i h = ground arith
get_id-create_id lock i h = ground arith
get_id-create_id cvar i h = ground arith
