-- ===== src/Server/Journals.antt =====
-- The journals of a node over any run of requests and downloads.
use jn_server_cc.Base.{◌≡◌, ◌≢◌, refl, inr, List, [], ◌∷◌, some, Bytes, codes, arith}
use jn_server_cc.Dict.{find}
use jn_server_cc.Dict.Laws.{IsSorted}
use jn_server_cc.Host.{Host}
use jn_server_cc.Journal.State.{Journal}
use jn_server_cc.Journal.Epochs.Promise.{IsLoaded, Later, Later-trans}
use jn_server_cc.Node.{JournalNode, Properties, new_node}
use jn_server_cc.Node.Others.{StaysSorted, MovesForward-any}
use jn_server_cc.Rpc.Translator.{target, handle}
use jn_server_cc.Rpc.Translator.Fencing.{
  Spares, handle-OthersSame, handle-StaysSorted, handle-MovesForward,
}
use jn_server_cc.Http.{ev_handler}
use jn_server_cc.Http.Serving.{
  ev_handler-OthersSame, ev_handler-StaysSorted, ev_handler-MovesForward,
}
use jn_server_cc.Server.{Event, request, download, after, serve_all}

-- The journal that an event names.
abbrev pub named : Event → Bytes
named (request msg) = target msg
named (download uri var) = var (codes "jid") 100

-- No event formats the journal.
abbrev pub SparesAll : Bytes → List Event → Type 0
SparesAll k [] = Unit {0}
SparesAll k (request msg ∷ es) = Spares k msg × SparesAll k es
SparesAll k (download uri var ∷ es) = SparesAll k es

module _ ⦃host : Host⦄ where
  -- A request or a download leaves every journal of the node alone but the one that it names.
  pub after_others :
      (e : Event) (n : JournalNode) (k : Bytes)
      → k ≢ named e
      → find k (after e n).journals_by_id ≡ find k n.journals_by_id
  unfolding after
  after_others (request msg) n k h = ((handle-OthersSame msg).at n).same k h
  after_others (download uri var) n k h = ((ev_handler-OthersSame uri var).at n).same k h

  after-StaysSorted : (e : Event) (n : JournalNode) → StaysSorted n (after e n)
  unfolding after
  after-StaysSorted (request msg) n = (handle-StaysSorted msg).at n
  after-StaysSorted (download uri var) n = (ev_handler-StaysSorted uri var).at n

  IsSorted-from :
      (es : List Event) (n : JournalNode)
      → IsSorted n.journals_by_id
      → IsSorted (serve_all es n).journals_by_id
  unfolding serve_all
  IsSorted-from [] n s = s
  IsSorted-from (e ∷ es) n s = IsSorted-from es (after e n) ((after-StaysSorted e n).sorted s)

  -- From a new node on, whatever is requested and downloaded, the entries of the map of journals
  -- stay in the order of their ids, each id once.
  pub serve_all-IsSorted :
      (conf : Properties) (d : host.Disk) (es : List Event)
      → IsSorted (serve_all es (new_node conf d)).journals_by_id
  unfolding new_node
  serve_all-IsSorted conf d es = IsSorted-from es (new_node conf d) tt

  -- A journal of the node whose promised epoch has been loaded stays in the map with the promise
  -- loaded, and its promise and serial number only move forward, over any sequence of requests,
  -- of whichever journals, and downloads, none of which is a request to format that journal.
  pub serve_all-Later :
      (k : Bytes) (es : List Event) (n : JournalNode) (j : Journal)
      → SparesAll k es
      → find k n.journals_by_id ≡ some j
      → IsLoaded j
      → (j' : Journal) × (find k (serve_all es n).journals_by_id ≡ some j')
        × IsLoaded j'
        × Later j j'
  unfolding serve_all after
  serve_all-Later k [] n j h e l = (j, e, l, inr (refl, omega arith))
  serve_all-Later k (request msg ∷ es) n j h e l =
      let (j1, e1, l1, m1) = ((handle-MovesForward k msg h.0).at n).moved j e l in
      let (j2, e2, l2, m2) = serve_all-Later k es (handle msg n).1 j1 h.1 e1 l1 in
      (j2, e2, l2, Later-trans j j1 j2 m1 m2)
  serve_all-Later k (download uri var ∷ es) n j h e l =
      let named =
        MovesForward-any k (var (codes "jid") 100) (ev_handler uri var)
          (ev_handler-OthersSame uri var) (ev_handler-MovesForward uri var) in
      let (j1, e1, l1, m1) = (named.at n).moved j e l in
      let (j2, e2, l2, m2) = serve_all-Later k es (ev_handler uri var n).1 j1 h e1 l1 in
      (j2, e2, l2, Later-trans j j1 j2 m1 m2)
