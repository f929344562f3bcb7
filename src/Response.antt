-- ===== src/Response.antt =====
-- `enum at_response_type` and its macros (include/attentive/parser.h). A value is the bit pattern
-- of a C int, a number below 2 ^ 32.
use attentive.Base.{ℕ, ◌+◌, ◌*◌, ◌/◌, ◌%◌, ◌^◌, ◌-◌, ltb, if◌then◌else◌, suc}
use attentive.Base.Int.{ℤ, pos, negsuc}

abbrev pub ResponseType : Type 0
ResponseType = ℕ

abbrev pub unexpected : ResponseType
unexpected = 2 ^ 32 - 1

abbrev pub unknown : ResponseType
unknown = 0

abbrev pub intermediate : ResponseType
intermediate = 1

abbrev pub final_ok : ResponseType
final_ok = 2

abbrev pub final : ResponseType
final = 3

abbrev pub urc : ResponseType
urc = 4

abbrev pub rawdata_follows_type : ResponseType
rawdata_follows_type = 5

abbrev pub hexdata_follows_type : ResponseType
hexdata_follows_type = 6

-- The shifted amount has its low eight bits clear, so `|` is `+`.
unfoldable pub rawdata_follows : ℕ → ResponseType
rawdata_follows amount = rawdata_follows_type + (amount * 2 ^ 8) % 2 ^ 32

-- The macro at an int, which may be negative.
unfoldable pub rawdata_follows_int : ℤ → ResponseType
unfolding rawdata_follows
rawdata_follows_int (pos amount) = rawdata_follows amount
rawdata_follows_int (negsuc n) = rawdata_follows_type + (2 ^ 32 - (suc n * 2 ^ 8) % 2 ^ 32) % 2 ^ 32

unfoldable pub hexdata_follows : ℕ → ResponseType
hexdata_follows amount = hexdata_follows_type + (amount * 2 ^ 8) % 2 ^ 32

-- `type & _AT_RESPONSE_TYPE_MASK`
abbrev pub type_mask : ResponseType → ℕ
type_mask type = type % 2 ^ 8

-- `(size_t) ((int) type >> 8)`: the shift keeps the sign, and a negative count wraps to a huge
-- size.
unfoldable pub data_amount : ResponseType → ℕ
data_amount type = if ltb type (2 ^ 31) then type / 2 ^ 8 else 2 ^ 64 - 2 ^ 24 + type / 2 ^ 8
