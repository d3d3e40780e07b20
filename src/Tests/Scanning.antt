-- ===== src/Tests/Scanning.antt =====
-- A damaged file whose scan never ends: the length of its one operation is -5.
use jn_server_cc.Base.{suc, ◌≡◌, refl, [], ◌∷◌, Bytes, length, ◌>>=◌, fail, diverge}
use jn_server_cc.EditLog.Transaction.{invalid_txid, opcode}
use jn_server_cc.EditLog.Input.{scan_ops, scan_text}
use jn_server_cc.EditLog.Endless.{scan_ops_rounds}

abbrev damaged : Bytes
damaged =
    0 ∷ 0 ∷ 0 ∷ 1 ∷ 0 ∷ 0 ∷ 0 ∷ 0 ∷ opcode ∷ 255 ∷ 255 ∷ 255 ∷ 251 ∷ 0 ∷ 0 ∷ 0 ∷ 0 ∷ 0 ∷ 0 ∷ 0 ∷ 1
    ∷ []

out_of_rounds : (scan_ops (suc (length damaged)) damaged invalid_txid 8).0 ≡ fail diverge
unfolding scan_ops ◌>>=◌
out_of_rounds = refl

damaged_endless : scan_text damaged ≡ fail diverge
unfolding scan_text ◌>>=◌
damaged_endless = refl

scan_ops_rounds_example : (scan_ops 1000000 damaged invalid_txid 8).0 ≡ fail diverge
scan_ops_rounds_example = scan_ops_rounds damaged invalid_txid 8 1000000 out_of_rounds
