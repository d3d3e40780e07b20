-- ===== src/Tests/Torn.antt =====
-- A log of which the last transaction has been written in part.
use jn_server_cc.Base.{
  ◌≡◌, refl, [], ◌∷◌, ◌++◌, Bytes, codes, pos, negsuc, drop, length, ◌<◌, ◌^◌, arith, fail,
  undefined,
}
use jn_server_cc.EditLog.Transaction.{transaction}
use jn_server_cc.EditLog.Input.{scan_text}
use jn_server_cc.EditLog.Torn.{torn_file, scan_text-torn_file}
use jn_server_cc.EditLog.Whole.{Transactions}
use jn_server_cc.Tests.Files.{real}
use jn_server_cc.Tests.Setup.{crc, create_transaction}

abbrev one : Transactions
one = (pos 1, codes "Data") ∷ []

-- The opcode and the length of the second transaction, and what is missing of it.
abbrev piece : Bytes
piece = 0 ∷ 0 ∷ 0 ∷ 16 ∷ []

abbrev missing : Bytes
missing = drop 6 (create_transaction 2)

cut : 30 ∷ (piece ++ 0 ∷ missing) ≡ transaction crc (pos 2) (codes "Data")
unfolding transaction
cut = refl

torn_size : length (torn_file crc (negsuc 56) one (30 ∷ piece) ++ 0 ∷ missing) < 2 ^ 32
unfolding transaction
torn_size = omega arith

scan_text-torn_file_example :
    scan_text (torn_file crc (negsuc 56) one (30 ∷ piece)) ≡ fail undefined
scan_text-torn_file_example =
    scan_text-torn_file crc (negsuc 56) one (pos 2) (codes "Data") 30 piece 0 missing torn_size
      (λ b. omega arith) (omega arith, real 1, tt) cut
