-- ===== src/EditLog/Transaction.antt =====
-- src/TestJNClientOutputStream: one transaction as the bytes that a writer sends, with boost's
-- crc_32 as a parameter; and util/Constants.h.
use jn_server_cc.Base.{
  ℕ, zero, suc, ◌+◌, ◌-◌, ◌/◌, ◌%◌, ◌^◌, [], ◌∷◌, ◌++◌, Bytes, length, ℤ, negsuc,
}
use jn_server_cc.Messages.{to_u64}

-- INVALID_TXID
abbrev pub invalid_txid : ℤ
invalid_txid = negsuc 12344

-- OPCODE
abbrev pub opcode : ℕ
opcode = 30

-- The `k` low bytes of a number, the highest first.
unfoldable pub store_as_big_endian : ℕ → ℕ → Bytes
store_as_big_endian zero n = []
store_as_big_endian (suc k) n = (n / 256 ^ k) % 256 ∷ store_as_big_endian k n

unfoldable pub write_int : ℕ → Bytes
unfolding store_as_big_endian
write_int i = store_as_big_endian 4 i

unfoldable pub write_long : ℤ → Bytes
unfolding store_as_big_endian
write_long l = store_as_big_endian 8 (to_u64 l)

calculate_size : Bytes → ℕ
calculate_size bytes = 17 + length bytes

-- Everything but the checksum: opcode, length, txid, data.
unfoldable pub content : ℤ → Bytes → Bytes
unfolding calculate_size write_int write_long
content txid bytes = opcode ∷ (write_int (calculate_size bytes - 5) ++ (write_long txid ++ bytes))

unfoldable pub transaction : (Bytes → ℕ) → ℤ → Bytes → Bytes
unfolding content
transaction crc txid bytes = content txid bytes ++ write_int (crc (content txid bytes))
