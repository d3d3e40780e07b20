-- ===== src/Cluster/Fenced.antt =====
-- What writers with an older epoch can do where a majority of the nodes has given a later one.
use jn_server_cc.Base.{ℕ, ◌≡◌, true, false, refl, List, [], ◌∷◌, inl, inr, Bytes, Bool-cases}
use jn_server_cc.Host.{Host}
use jn_server_cc.Node.{JournalNode}
use jn_server_cc.Server.{Event, request, download, after}
use jn_server_cc.Cluster.{
  Sent, Member, is_older, answered, happens, node_after, has_given, accepts_older, Majority,
}
use jn_server_cc.Cluster.Promised.{
  SparesSent, HasPromised, after-HasPromised, node_after-HasPromised, given-HasPromised,
}
use jn_server_cc.Cluster.Older.{handle_older}
use jn_server_cc.Cluster.Writers.{AllSpare, AllApart, gets, got, two_majorities}

module _ ⦃host : Host⦄ where
  happened-HasPromised :
      (w : ℕ) (jid : Bytes) (epoch : ℕ) (ss : List Sent) (n : JournalNode)
      → SparesSent jid ss
      → happens (gets w jid epoch) ss n ≡ true
      → HasPromised jid epoch (node_after ss n)
  unfolding happens
  happened-HasPromised w jid epoch [] n spares h = absurd (cc h)
  happened-HasPromised w jid epoch (s ∷ ss) n (spare, spares) h =
      elim (Bool-cases (gets w jid epoch s n)) [
        | inl e ↦
            node_after-HasPromised jid epoch ss (after s.event n) spares
              (given-HasPromised jid epoch s.event n (got w jid epoch s n e).1)
        | inr e ↦ happened-HasPromised w jid epoch ss (after s.event n) spares (rw e at h)
      ]

  not_answered :
      (jid : Bytes) (epoch : ℕ) (e : Event) (n : JournalNode)
      → HasPromised jid epoch n
      → answered (is_older jid epoch) e n ≡ false
  unfolding answered
  not_answered jid epoch (download uri var) n p = refl
  not_answered jid epoch (request msg) n p = elim (Bool-cases (is_older jid epoch msg)) [
    | inl older ↦ rw (older, handle_older jid epoch msg n p older) refl
    | inr later ↦ rw later refl
  ]

  none_accepted :
      (jid : Bytes) (epoch : ℕ) (ss : List Sent) (n : JournalNode)
      → SparesSent jid ss
      → HasPromised jid epoch n
      → happens (λ s n'. answered (is_older jid epoch) s.event n') ss n ≡ false
  unfolding happens
  none_accepted jid epoch [] n spares p = refl
  none_accepted jid epoch (s ∷ ss) n (spare, spares) p = rw (not_answered jid epoch s.event n p) (
      none_accepted jid epoch ss (after s.event n) spares
        (after-HasPromised jid epoch s.event n spare p))

  apart_fenced :
      (w : ℕ) (jid : Bytes) (epoch : ℕ) (ms : List Member)
      → AllSpare jid ms
      → AllApart (has_given w jid epoch) (accepts_older jid epoch) ms
  unfolding has_given accepts_older
  apart_fenced w jid epoch [] spares = tt
  apart_fenced w jid epoch (m ∷ ms) (seen, coming, spares) = (
    λ h.
        none_accepted jid epoch m.coming (node_after m.seen m.node) coming
          (happened-HasPromised w jid epoch m.seen m.node seen h),
    apart_fenced w jid epoch ms spares,
  )

  -- Where a majority of the nodes has answered newEpoch of a writer, whatever else the nodes have
  -- been sent and are sent then, none of it a request to format the journal: no majority of them
  -- answers, of what is sent then, a writer's request for the journal whose header has an older
  -- epoch.
  pub older_epochs_fenced :
      (w : ℕ) (jid : Bytes) (epoch : ℕ) (ms : List Member)
      → AllSpare jid ms
      → Majority (has_given w jid epoch) ms
      → ¬ Majority (accepts_older jid epoch) ms
  older_epochs_fenced w jid epoch ms spares a b =
      two_majorities (has_given w jid epoch) (accepts_older jid epoch) ms
        (apart_fenced w jid epoch ms spares) a b
