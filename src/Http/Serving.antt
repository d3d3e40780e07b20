-- ===== src/Http/Serving.antt =====
-- What a download does to the journals of the node.
use jn_server_cc.Base.{refl, inr, Bytes, codes, arith}
use jn_server_cc.Base.Moves.{Moves}
use jn_server_cc.Host.{Host}
use jn_server_cc.Journal.Epochs.Promise.{Forward}
use jn_server_cc.Node.Others.{
  OthersSame, StaysSorted, MovesForward, get_or_create-MovesForward, through_pointer-MovesForward,
  others_rules, sorted_rules, forward_rules,
}
use jn_server_cc.Http.{Variables, find_segment, send_reply, ev_handler}

module _ ⦃host : Host⦄ where
  find_segment-Forward : (info txid : Bytes) → Moves Forward (find_segment info txid)
  unfolding find_segment
  find_segment-Forward info txid = record {
    at = λ j. record { from_loaded = λ l. (l, inr (refl, omega arith)) };
  }

  pub send_reply-OthersSame :
      (var : Variables) → Moves (OthersSame (var (codes "jid") 100)) (send_reply var)
  unfolding send_reply
  send_reply-OthersSame var = search others_rules

  pub ev_handler-StaysSorted :
      (uri : Bytes) (var : Variables) → Moves StaysSorted (ev_handler uri var)
  unfolding ev_handler send_reply
  ev_handler-StaysSorted uri var = search sorted_rules

  pub ev_handler-OthersSame :
      (uri : Bytes) (var : Variables)
      → Moves (OthersSame (var (codes "jid") 100)) (ev_handler uri var)
  unfolding ev_handler send_reply
  ev_handler-OthersSame uri var = search others_rules

  pub ev_handler-MovesForward :
      (uri : Bytes) (var : Variables)
      → Moves (MovesForward (var (codes "jid") 100)) (ev_handler uri var)
  unfolding ev_handler send_reply
  ev_handler-MovesForward uri var = search (
    forward_rules, get_or_create-MovesForward, through_pointer-MovesForward, find_segment-Forward,
  )
