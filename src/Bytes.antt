-- ===== src/Bytes.antt =====
-- Byte memory (`memcpy`, `memset`) and the little-endian integers that the structs are made of.
pub mod RoundTrip
use flog_fs.Base.{
  ℕ, zero, suc, ◌+◌, ◌*◌, ◌/◌, ◌%◌, Bool, true, List, [], ◌∷◌, ◌&&◌, ltb, leb, ◌==◌, if◌then◌else◌,
  take, drop,
}

-- The byte at each address.
abbrev pub Mem : Type 0
Mem = ℕ → ℕ

-- memcpy from memory: `n` bytes from address `a` on.
unfoldable pub load_bytes : Mem → ℕ → ℕ → List ℕ
load_bytes m a zero = []
load_bytes m a (suc n) = m a ∷ load_bytes m (a + 1) n

-- memcpy to memory.
unfoldable pub store_bytes : Mem → ℕ → List ℕ → Mem
store_bytes m a [] x = m x
store_bytes m a (b ∷ bs) x = if x == a then b else store_bytes m (a + 1) bs x

-- memset
unfoldable pub fill : Mem → ℕ → ℕ → ℕ → Mem
fill m a v n x = if leb a x && ltb x (a + n) then v else m x

-- Whether `n` bytes from `a` on are all `v`.
unfoldable pub all_equal : ℕ → Mem → ℕ → ℕ → Bool
all_equal v m a zero = true
all_equal v m a (suc n) = m a == v && all_equal v m (a + 1) n

-- An unsigned integer of `k` bytes, lowest byte first.
unfoldable pub encode : ℕ → ℕ → List ℕ
encode zero v = []
encode (suc k) v = (v % 256) ∷ encode k (v / 256)

unfoldable pub decode : List ℕ → ℕ
decode [] = 0
decode (b ∷ bs) = b + 256 * decode bs

-- The integer of `k` bytes at offset `off` of a struct's bytes.
unfoldable pub field : List ℕ → ℕ → ℕ → ℕ
unfolding decode
field bs off k = decode (take k (drop off bs))
